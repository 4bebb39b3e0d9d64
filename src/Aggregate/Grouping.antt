-- ===== src/Aggregate/Grouping.antt =====
-- What the loops put into the buckets, against the candles of each bucket.
use mathlib.Core.List.{foldl}
use mathlib.Core.Bool.{false≢true}
use ohlcv.Base.{
  ℕ, ◌≡◌, ◌≢◌, refl, sym, ◌∙◌, ap, subst, inl, inr, Bool, List, [], ◌∷◌, Option, none, some, ℤ,
  eqb_ℤ, eqb_ℤ_iff, All, Bool-cases, arith, if◌then◌else◌,
}
use ohlcv.Decimal.{Decimals}
use ohlcv.Candle.{Candle}
use ohlcv.Aggregate.{Buckets, bucket, put, compare, compared, group_by, group_minutes, minute_key}

-- The elements that pass a test, in their order.
abbrev pub select {ℓ} : {A : Type ℓ} → (A → Bool) → List A → List A
select f [] = []
select f (x ∷ xs) = if f x then x ∷ select f xs else select f xs

module _ {D : Type 0} where
  pub bucket-put :
      (k ts : ℤ) (c : Candle D) (b : Buckets D)
      → bucket ts (put k c b) ≡ (if eqb_ℤ k ts then some c else bucket ts b)
  unfolding bucket put
  bucket-put k ts c [] = refl
  bucket-put k ts c ((key, old) ∷ rest) =
      ground (arith, eqb_ℤ_iff k ts, eqb_ℤ_iff key k, eqb_ℤ_iff key ts, bucket-put k ts c rest)

  put-put : (k : ℤ) (c : Candle D) (b : Buckets D) → put k c (put k c b) ≡ put k c b
  unfolding put
  put-put k c [] = ground (arith, eqb_ℤ_iff k k)
  put-put k c ((key, old) ∷ rest) = ground (arith, eqb_ℤ_iff k k, eqb_ℤ_iff key k, put-put k c rest)

  -- No two entries have one key.
  abbrev pub Differs : ℤ → Buckets D → Type 0
  Differs ts = All (λ e. e.0 ≢ ts)

  abbrev pub HasKeysOnce : Buckets D → Type 0
  HasKeysOnce [] = Unit
  HasKeysOnce ((key, _) ∷ rest) = Differs key rest × HasKeysOnce rest

  put-Differs :
      (ts k : ℤ) (c : Candle D) (b : Buckets D) → k ≢ ts → Differs ts b → Differs ts (put k c b)
  unfolding put
  put-Differs ts k c [] ne d = (ne, tt)
  put-Differs ts k c ((key, old) ∷ rest) ne d = elim (Bool-cases (eqb_ℤ key k)) [
    | inl same ↦ rw (same, put) (ne, d.1)
    | inr other ↦ rw (other, put) (d.0, put-Differs ts k c rest ne d.1)
  ]

  put-HasKeysOnce : (k : ℤ) (c : Candle D) (b : Buckets D) → HasKeysOnce b → HasKeysOnce (put k c b)
  unfolding put
  put-HasKeysOnce k c [] h = (tt, tt)
  put-HasKeysOnce k c ((key, old) ∷ rest) h = elim (Bool-cases (eqb_ℤ key k)) [
    | inl same ↦ rw (same, put) (subst (λ k. Differs k rest) ((eqb_ℤ_iff key k).0 same) h.0, h.1)
    | inr other ↦
        rw (other, put)
          (
            put-Differs key k c rest
                (λ e. absurd (false≢true (sym other ∙ (eqb_ℤ_iff key k).1 (sym e)))) h.0,
            put-HasKeysOnce k c rest h.1,
          )
  ]

  -- Writing the bucket of the current time again changes nothing.
  written_again :
      (current_ts ts : ℤ) (c : Candle D) (b : Buckets D)
      → (if eqb_ℤ current_ts ts then put current_ts c (put ts c b) else put ts c b) ≡ put ts c b
  written_again current_ts ts c b = elim (Bool-cases (eqb_ℤ current_ts ts)) [
    | inl same ↦ rw (same, (eqb_ℤ_iff current_ts ts).0 same) (put-put ts c b)
    | inr other ↦ rw other
  ]

module _ {D S : Type 0} (dec : Decimals D S) where
  -- What a bucket that holds `o` holds after more candles of its own.
  abbrev pub gathered : Option (Candle D) → List (Candle D) → Option (Candle D)
  gathered o [] = o
  gathered o (c ∷ cs) = gathered (some (compared dec o c)) cs

  -- The first of the candles, compared with each of the others in turn.
  abbrev pub merged : List (Candle D) → Option (Candle D)
  merged [] = none
  merged (c ∷ cs) = some (foldl (compare dec) c cs)

  gathered-some :
      (a : Candle D) (cs : List (Candle D)) → gathered (some a) cs ≡ some (foldl (compare dec) a cs)
  gathered-some a [] = refl
  gathered-some a (c ∷ cs) = gathered-some (compare dec a c) cs

  gathered-merged : (cs : List (Candle D)) → gathered none cs ≡ merged cs
  gathered-merged [] = refl
  gathered-merged (c ∷ cs) = gathered-some c cs

  -- A candle goes into the bucket of its key, and no other.
  one_more :
      (key : Candle D → ℤ) (ts : ℤ) (c : Candle D) (cs : List (Candle D)) (b : Buckets D)
      → gathered
          (bucket ts (put (key c) (compared dec (bucket (key c) b) c) b))
          (select (λ c. eqb_ℤ (key c) ts) cs)
        ≡ gathered (bucket ts b) (select (λ c. eqb_ℤ (key c) ts) (c ∷ cs))
  one_more key ts c cs b = elim (Bool-cases (eqb_ℤ (key c) ts)) [
    | inl same ↦ rw (
      bucket-put (key c) ts (compared dec (bucket (key c) b) c) b,
      same,
      (eqb_ℤ_iff (key c) ts).0 same,
    )
    | inr other ↦ rw (bucket-put (key c) ts (compared dec (bucket (key c) b) c) b, other)
  ]

  bucket-group_by_from :
      (key : Candle D → ℤ) (ts : ℤ) (cs : List (Candle D)) (b : Buckets D)
      → bucket ts (group_by dec key cs b)
        ≡ gathered (bucket ts b) (select (λ c. eqb_ℤ (key c) ts) cs)
  unfolding group_by
  bucket-group_by_from key ts [] b = refl
  bucket-group_by_from key ts (c ∷ cs) b = bucket-group_by_from key ts cs _ ∙ one_more key ts c cs b

  pub group_by-HasKeysOnce :
      (key : Candle D → ℤ) (cs : List (Candle D)) (b : Buckets D)
      → HasKeysOnce b
      → HasKeysOnce (group_by dec key cs b)
  unfolding group_by
  group_by-HasKeysOnce key [] b h = h
  group_by-HasKeysOnce key (c ∷ cs) b h =
      group_by-HasKeysOnce key cs _
        (put-HasKeysOnce (key c) (compared dec (bucket (key c) b) c) b h)

  -- The bucket of a timestamp holds the candles whose timestamp it is, in their order, the first
  -- compared with each of the others in turn.
  pub bucket-group_by :
      (key : Candle D → ℤ) (ts : ℤ) (cs : List (Candle D))
      → bucket ts (group_by dec key cs []) ≡ merged (select (λ c. eqb_ℤ (key c) ts) cs)
  unfolding bucket
  bucket-group_by key ts cs = bucket-group_by_from key ts cs [] ∙ gathered-merged _

  -- The loop of the minutes writes nothing else for the bucket of the current time.
  pub group_minutes-group_by :
      (m : ℕ) (current_ts : ℤ) (cs : List (Candle D)) (b : Buckets D)
      → group_minutes dec m current_ts cs b ≡ group_by dec (minute_key m) cs b
  unfolding group_minutes group_by
  group_minutes-group_by m current_ts [] b = refl
  group_minutes-group_by m current_ts (c ∷ cs) b =
      ap (λ r. group_minutes dec m current_ts cs r) (written_again current_ts (minute_key m c) _ b)
      ∙ group_minutes-group_by m current_ts cs _
