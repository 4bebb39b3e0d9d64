-- ===== src/Batch/Merge.antt =====
-- Merging loses, repeats and reorders no point of a batch.
use mathlib.Core.List.{append_assoc, map-append}
use mathlib.Core.Path.{ap₂}
use mathlib.Core.Bool.{false≢true}
use ohlcv.Base.{
  ◌*◌, ◌≤◌, ◌≡◌, refl, ◌∙◌, ap, ◌⊎◌, inl, inr, true, String, List, [], ◌∷◌, ◌++◌, map, ℤ, ◌<ℤ◌,
  eq_iff, length, length-append, All, Bool-cases, arith,
}
use ohlcv.Candle.{Chart}
use ohlcv.Batch.{mergeable, single_before, joined, merge_same_chart}

-- The times of the charts that are merged: one each, in rising order.
single_before-lt :
    (s t : List ℤ)
    → single_before s t ≡ true
    → (x : ℤ) × (y : ℤ) × (s ≡ x ∷ []) × (t ≡ y ∷ []) × (x <ℤ y)
unfolding single_before
single_before-lt (x ∷ []) (y ∷ []) h = (x, y, refl, refl, ground arith)
single_before-lt [] t h = absurd (false≢true h)
single_before-lt (x ∷ x' ∷ s) t h = absurd (false≢true h)
single_before-lt (x ∷ []) [] h = absurd (false≢true h)
single_before-lt (x ∷ []) (y ∷ y' ∷ t) h = absurd (false≢true h)

module _ {D : Type 0} where
  -- The columns of the charts of a list, one after the other.
  abbrev pub all_of : {A : Type 0} → (Chart D → List A) → List (Chart D) → List A
  all_of f [] = []
  all_of f (k ∷ ks) = f k ++ all_of f ks

  all_of-merge :
      {A : Type 0} (f : Chart D → List A)
      → ((a b : Chart D) → mergeable a b ≡ true → f (joined a b) ≡ f a ++ f b)
      → (ks : List (Chart D)) → all_of f (merge_same_chart ks) ≡ all_of f ks
  unfolding merge_same_chart
  all_of-merge f j [] = refl
  all_of-merge f j (a ∷ []) = refl
  all_of-merge f j (a ∷ b ∷ rest) = elim (Bool-cases (mergeable a b)) [
    | inl both ↦
        rw (both, merge_same_chart)
          (ap (λ xs. xs ++ all_of f (merge_same_chart rest)) (j a b both)
            ∙ append_assoc (f a) (f b) _
            ∙ ap (λ xs. f a ++ (f b ++ xs)) (all_of-merge f j rest))
    | inr apart ↦ rw (apart, merge_same_chart) (ap (◌++◌ (f a)) (all_of-merge f j (b ∷ rest)))
  ]

  -- A point of a chart: the chart's symbol and resolution, and a time.
  abbrev pub points : Chart D → List (String × String × ℤ)
  points k = map (λ t. (k.symbol, k.resolution, t)) k.t

  abbrev pub IsRectangular : Chart D → Type 0
  IsRectangular k =
      (length k.o ≡ length k.t)
      × (length k.h ≡ length k.t)
      × (length k.l ≡ length k.t)
      × (length k.c ≡ length k.t)
      × (length k.v ≡ length k.t)

  mergeable-keys :
      (a b : Chart D)
      → mergeable a b ≡ true
      → (a.symbol ≡ b.symbol) × (a.resolution ≡ b.resolution) × (single_before a.t b.t ≡ true)
  unfolding mergeable
  mergeable-keys a b h = ground (arith, eq_iff a.symbol b.symbol, eq_iff a.resolution b.resolution)

  points-joined :
      (a b : Chart D) → mergeable a b ≡ true → points (joined a b) ≡ points a ++ points b
  points-joined a b h =
      let (symbol, resolution, _) = mergeable-keys a b h in
      map-append (λ t. (a.symbol, a.resolution, t)) a.t b.t
      ∙ ap₂ (λ s r. points a ++ map (λ t. (s, r, t)) b.t) symbol resolution

  -- Merging a batch keeps every column, read from the first chart to the last, and the symbol,
  -- resolution and time of every point: nothing is lost, repeated or moved.
  pub merge_same_chart-columns :
      (ks : List (Chart D))
      → let ms = merge_same_chart ks in
        (all_of (λ k. k.o) ms ≡ all_of (λ k. k.o) ks)
        × (all_of (λ k. k.h) ms ≡ all_of (λ k. k.h) ks)
        × (all_of (λ k. k.l) ms ≡ all_of (λ k. k.l) ks)
        × (all_of (λ k. k.c) ms ≡ all_of (λ k. k.c) ks)
        × (all_of (λ k. k.v) ms ≡ all_of (λ k. k.v) ks)
        × (all_of points ms ≡ all_of points ks)
  merge_same_chart-columns ks = (
    all_of-merge (λ k. k.o) (λ a b h. refl) ks,
    all_of-merge (λ k. k.h) (λ a b h. refl) ks,
    all_of-merge (λ k. k.l) (λ a b h. refl) ks,
    all_of-merge (λ k. k.c) (λ a b h. refl) ks,
    all_of-merge (λ k. k.v) (λ a b h. refl) ks,
    all_of-merge points points-joined ks,
  )

  joined-IsRectangular :
      (a b : Chart D) → IsRectangular a → IsRectangular b → IsRectangular (joined a b)
  joined-IsRectangular a b ra rb = omega (
    arith,
    length-append a.o b.o,
    length-append a.h b.h,
    length-append a.l b.l,
    length-append a.c b.c,
    length-append a.v b.v,
    length-append a.t b.t,
  )

  -- A chart's columns are as long as each other after the merge if they were before.
  pub merge_same_chart-IsRectangular :
      (ks : List (Chart D)) → All IsRectangular ks → All IsRectangular (merge_same_chart ks)
  unfolding merge_same_chart
  merge_same_chart-IsRectangular [] h = tt
  merge_same_chart-IsRectangular (a ∷ []) h = h
  merge_same_chart-IsRectangular (a ∷ b ∷ rest) h = elim (Bool-cases (mergeable a b)) [
    | inl both ↦
        rw (both, merge_same_chart)
          (joined-IsRectangular a b h.0 h.1.0, merge_same_chart-IsRectangular rest h.1.1)
    | inr apart ↦ rw (apart, merge_same_chart) (h.0, merge_same_chart-IsRectangular (b ∷ rest) h.1)
  ]

  -- A batch shrinks to no less than half its charts.
  pub merge_same_chart-length :
      (ks : List (Chart D))
      → (length (merge_same_chart ks) ≤ length ks) × (length ks ≤ 2 * length (merge_same_chart ks))
  unfolding merge_same_chart
  merge_same_chart-length [] = omega arith
  merge_same_chart-length (a ∷ []) = omega arith
  merge_same_chart-length (a ∷ b ∷ rest) = elim (Bool-cases (mergeable a b)) [
    | inl both ↦ rw (both, merge_same_chart) (omega (arith, merge_same_chart-length rest))
    | inr apart ↦ rw (apart, merge_same_chart) (omega (arith, merge_same_chart-length (b ∷ rest)))
  ]

  -- A chart with one point, or with two of which the first is the earlier.
  abbrev pub IsPoint : Chart D → Type 0
  IsPoint k = (x : ℤ) × (k.t ≡ x ∷ [])

  abbrev pub IsMerged : Chart D → Type 0
  IsMerged k = (x : ℤ) × (y : ℤ) × (k.t ≡ x ∷ y ∷ []) × (x <ℤ y)

  -- From charts of one point each, as the candles give them, the merge makes charts of one point or
  -- of two in rising order.
  pub merge_same_chart-times :
      (ks : List (Chart D))
      → All IsPoint ks
      → All (λ k. IsPoint k ⊎ IsMerged k) (merge_same_chart ks)
  unfolding merge_same_chart
  merge_same_chart-times [] h = tt
  merge_same_chart-times (a ∷ []) h = (inl h.0, tt)
  merge_same_chart-times (a ∷ b ∷ rest) h = elim (Bool-cases (mergeable a b)) [
    | inl both ↦
        let (x, y, ea, eb, lt) = single_before-lt a.t b.t (mergeable-keys a b both).2 in
        rw (both, merge_same_chart)
          (inr (x, y, ap₂ ◌++◌ ea eb, lt), merge_same_chart-times rest h.1.1)
    | inr apart ↦ rw (apart, merge_same_chart) (inl h.0, merge_same_chart-times (b ∷ rest) h.1)
  ]
