-- ===== src/Batch/Stream.antt =====
-- What Microbatching sends, whatever the selects choose.
use Prim.Native.Nat.{max}
use mathlib.Core.List.{append_assoc, append-nil, map-append}
use mathlib.Core.Path.{subst}
use ohlcv.Base.{
  ℕ, ◌≤◌, ◌<◌, ◌≡◌, ◌≢◌, refl, sym, ◌∙◌, ap, inl, inr, List, [], ◌∷◌, ◌++◌, map, ltb, length,
  length-append, All, All-append, Bool-cases, arith,
}
use ohlcv.Candle.{Chart}
use ohlcv.Batch.{
  merge_same_chart, Worker, waiting, filling, sending, returned, loop_head, Flow, Step, cancelled,
  closed, first, more, timed_out_or_closed, sent,
}

module _ {D : Type 0} where
  abbrev pub concat : List (List (Chart D)) → List (Chart D)
  concat [] = []
  concat (b ∷ bs) = b ++ concat bs

  concat-append :
      (bs : List (List (Chart D))) (b : List (Chart D)) → concat (bs ++ b ∷ []) ≡ concat bs ++ b
  concat-append [] b = append-nil b
  concat-append (x ∷ bs) b = ap (◌++◌ x) (concat-append bs b) ∙ sym (append_assoc x (concat bs) b)

  pub data Reach (m : ℕ) : Flow D → Type 0 where
    start : Reach m (record { worker = waiting; received = []; batches = [] })
    next : {f g : Flow D} → Reach m f → Step m f g → Reach m g

  -- A batch has a chart, and no more than the limit, which counts as 1 if it is 0.
  abbrev pub IsSized : ℕ → List (Chart D) → Type 0
  IsSized m b = (1 ≤ length b) × (length b ≤ max 1 m)

  -- The charts that the worker holds: those of its batch. Once it has returned, any.
  abbrev pub Carries : ℕ → Worker D → List (Chart D) → Type 0
  Carries m waiting rest = rest ≡ []
  Carries m (filling b) rest = (rest ≡ b) × (1 ≤ length b) × (length b < m)
  Carries m (sending b) rest = (rest ≡ b) × IsSized m b
  Carries m returned rest = Unit

  -- The charts of the batch that a worker holds.
  abbrev pub held : Worker D → List (Chart D)
  held waiting = []
  held (filling b) = b
  held (sending b) = b
  held returned = []

  -- What a run leaves unsent: what the worker holds, and after its return, what it held when the
  -- context ended, and nothing when the stream was closed.
  abbrev pub unsent : {m : ℕ} {f : Flow D} → Reach m f → List (Chart D)
  unsent start = []
  unsent (next {f} r (cancelled live)) = held f.worker
  unsent (next r (closed w)) = []
  unsent (next {f} {g} r (first c w)) = held g.worker
  unsent (next {f} {g} r (more b c w)) = held g.worker
  unsent (next {f} {g} r (timed_out_or_closed b w)) = held g.worker
  unsent (next {f} {g} r (sent b w)) = held g.worker

  -- The batches sent are the merges of raw batches of the right size, which hold all the charts
  -- received, in their order, but for the rest.
  pub record Delivers (m : ℕ) (f : Flow D) (rest : List (Chart D)) : Type 0 where
    pub raw : List (List (Chart D))
    pub sized : All (IsSized m) raw
    pub merged : f.batches ≡ map merge_same_chart raw
    pub accounted : f.received ≡ concat raw ++ rest
    pub carries : Carries m f.worker rest

  loop_head-Carries :
      (m : ℕ) (b : List (Chart D)) → 1 ≤ length b → length b ≤ max 1 m → Carries m (loop_head m b) b
  unfolding loop_head
  loop_head-Carries m b lo hi = elim (Bool-cases (ltb (length b) m)) [
    | inl room ↦ rw (room, loop_head) (refl, lo, ground arith)
    | inr full ↦ rw (full, loop_head) (refl, (lo, hi))
  ]

  Carries-held :
      (m : ℕ) (w : Worker D) (rest : List (Chart D))
      → w ≢ returned
      → Carries m w rest
      → rest ≡ held w
  Carries-held m waiting rest live h = h
  Carries-held m (filling b) rest live h = h.0
  Carries-held m (sending b) rest live h = h.0
  Carries-held m returned rest live h = absurd (live refl)

  loop_head-held : (m : ℕ) (b : List (Chart D)) → held (loop_head m b) ≡ b
  unfolding loop_head
  loop_head-held m b = elim (Bool-cases (ltb (length b) m)) [
    | inl room ↦ rw (room, loop_head) refl
    | inr full ↦ rw (full, loop_head) refl
  ]

  -- The worker has returned, with what it held unsent.
  ended :
      {m : ℕ} {f : Flow D} {rest : List (Chart D)} (left : List (Chart D))
      → Delivers m f rest
      → rest ≡ left
      → Delivers m (record f { worker = returned }) left
  ended {m} {f} left d e = subst (Delivers m (record f { worker = returned })) e (record {
    raw = d.raw;
    sized = d.sized;
    merged = d.merged;
    accounted = d.accounted;
    carries = tt;
  })

  -- A chart has been received, and the worker is at the head of the loop with a batch.
  received_more :
      {m : ℕ} {f : Flow D} {rest : List (Chart D)} (b : List (Chart D)) (c : Chart D)
      → Delivers m f rest
      → rest ≡ b
      → 1 ≤ length (b ++ c ∷ [])
      → length (b ++ c ∷ []) ≤ max 1 m
      → Delivers m
          (record f { worker = loop_head m (b ++ c ∷ []); received = f.received ++ c ∷ [] })
          (held (loop_head m (b ++ c ∷ [])))
  received_more {m} {f} b c d e lo hi = record {
    raw = d.raw;
    sized = d.sized;
    merged = d.merged;
    accounted =
        ap (λ r. r ++ c ∷ []) (d.accounted ∙ ap (◌++◌ (concat d.raw)) e)
        ∙ append_assoc (concat d.raw) b (c ∷ [])
        ∙ ap (◌++◌ (concat d.raw)) (sym (loop_head-held m (b ++ c ∷ [])));
    carries =
        subst (Carries m (loop_head m (b ++ c ∷ []))) (sym (loop_head-held m (b ++ c ∷ [])))
          (loop_head-Carries m (b ++ c ∷ []) lo hi);
  }

  -- Whatever the selects choose, the batches sent are the merges of successive runs of the charts
  -- received, each of at least one chart and at most the limit; what is not in them is the batch
  -- that the worker holds, or, once it has returned, the batch that it held when the context
  -- ended, and nothing if the stream was closed.
  pub Reach-Delivers : (m : ℕ) (f : Flow D) (r : Reach m f) → Delivers m f (unsent r)
  Reach-Delivers m f start = record {
    raw = [];
    sized = tt;
    merged = refl;
    accounted = refl;
    carries = refl;
  }
  Reach-Delivers m _ (next {f} r (cancelled live)) =
      let d = Reach-Delivers m f r in
      ended (held f.worker) d (Carries-held m f.worker (unsent r) live d.carries)
  Reach-Delivers m _ (next {f} r (closed w)) =
      let d = Reach-Delivers m f r in ended [] d (subst (λ x. Carries m x (unsent r)) w d.carries)
  Reach-Delivers m _ (next {f} r (first c w)) =
      let d = Reach-Delivers m f r in
      received_more [] c d (subst (λ x. Carries m x (unsent r)) w d.carries) (omega arith)
        (omega arith)
  Reach-Delivers m _ (next {f} r (more b c w)) =
      let d = Reach-Delivers m f r in
      let carried : (unsent r ≡ b) × (1 ≤ length b) × (length b < m) =
        subst (λ x. Carries m x (unsent r)) w d.carries in
      received_more b c d carried.0 (omega (arith, length-append b (c ∷ [])))
        (omega (arith, length-append b (c ∷ []), carried.2))
  Reach-Delivers m _ (next {f} r (timed_out_or_closed b w)) =
      let d = Reach-Delivers m f r in
      let carried : (unsent r ≡ b) × (1 ≤ length b) × (length b < m) =
        subst (λ x. Carries m x (unsent r)) w d.carries in
      record {
        raw = d.raw;
        sized = d.sized;
        merged = d.merged;
        accounted = d.accounted ∙ ap (◌++◌ (concat d.raw)) carried.0;
        carries = (refl, (carried.1, omega (arith, carried.2)));
      }
  Reach-Delivers m _ (next {f} r (sent b w)) =
      let d = Reach-Delivers m f r in
      let carried : (unsent r ≡ b) × IsSized m b =
        subst (λ x. Carries m x (unsent r)) w d.carries in
      record {
        raw = d.raw ++ b ∷ [];
        sized = All-append (IsSized m) d.raw (b ∷ []) d.sized (carried.1, tt);
        merged =
            ap (λ l. l ++ merge_same_chart b ∷ []) d.merged
            ∙ sym (map-append merge_same_chart d.raw (b ∷ []));
        accounted =
            d.accounted
            ∙ ap (◌++◌ (concat d.raw)) carried.0
            ∙ sym (concat-append d.raw b)
            ∙ sym (append-nil (concat (d.raw ++ b ∷ [])));
        carries = refl;
      }
