-- ===== src/Batch.antt =====
-- domain/microbatching.go: charts are gathered into batches, and neighbours in a batch are merged.
pub mod Merge
pub mod Stream
use ohlcv.Base.{
  ◌≡◌, ◌≢◌, ℕ, suc, Bool, true, false, ◌&&◌, List, [], ◌∷◌, ◌++◌, ltb, ltb_ℤ, ℤ, str_eq, length,
  if◌then◌else◌,
}
use ohlcv.Candle.{Chart}

-- Both columns of times have one element, and the first is before the second.
unfoldable pub single_before : List ℤ → List ℤ → Bool
single_before (s ∷ []) (t ∷ []) = ltb_ℤ s t
single_before _ _ = false

-- The goroutine of Microbatching, at its selects: waiting for a first chart, filling a batch,
-- sending it, or returned.
pub data Worker (D : Type 0) : Type 0 where
  waiting : Worker D
  filling : List (Chart D) → Worker D
  sending : List (Chart D) → Worker D
  returned : Worker D

-- The worker, what it has received and what it has sent.
pub record Flow (D : Type 0) : Type 0 where
  pub worker : Worker D
  pub received : List (Chart D)
  pub batches : List (List (Chart D))

module _ {D : Type 0} where
  unfoldable pub mergeable : Chart D → Chart D → Bool
  unfolding single_before
  mergeable a b =
      str_eq a.symbol b.symbol && (str_eq a.resolution b.resolution && single_before a.t b.t)

  abbrev pub joined : Chart D → Chart D → Chart D
  joined a b = record {
    symbol = a.symbol;
    resolution = a.resolution;
    o = a.o ++ b.o;
    h = a.h ++ b.h;
    l = a.l ++ b.l;
    c = a.c ++ b.c;
    v = a.v ++ b.v;
    t = a.t ++ b.t;
  }

  -- The loop over the batch; `i++` in its body skips the chart that was merged.
  unfoldable pub merge_same_chart : List (Chart D) → List (Chart D)
  merge_same_chart [] = []
  merge_same_chart (a ∷ []) = a ∷ []
  merge_same_chart (a ∷ b ∷ rest) = elim (mergeable a b) [
    | true ↦ joined a b ∷ merge_same_chart rest
    | false ↦ a ∷ merge_same_chart (b ∷ rest)
  ]

  -- `for len(batch) < maxBatchSize`
  unfoldable pub loop_head : ℕ → List (Chart D) → Worker D
  loop_head max_batch_size batch =
      if ltb (length batch) max_batch_size then filling batch else sending batch

  -- What the selects may do: the context ends, the stream is closed or gives a chart, the two
  -- seconds pass, or the batch is taken.
  pub data Step (max_batch_size : ℕ) (f : Flow D) : Flow D → Type 0 where
    cancelled : f.worker ≢ returned → Step max_batch_size f (record f { worker = returned })
    closed : f.worker ≡ waiting → Step max_batch_size f (record f { worker = returned })
    first :
        (c : Chart D)
        → f.worker ≡ waiting
        → Step max_batch_size f (record f {
          worker = loop_head max_batch_size (c ∷ []);
          received = f.received ++ c ∷ [];
        })
    more :
        (batch : List (Chart D)) (c : Chart D)
        → f.worker ≡ filling batch
        → Step max_batch_size f (record f {
          worker = loop_head max_batch_size (batch ++ c ∷ []);
          received = f.received ++ c ∷ [];
        })
    timed_out_or_closed :
        (batch : List (Chart D))
        → f.worker ≡ filling batch
        → Step max_batch_size f (record f { worker = sending batch })
    sent :
        (batch : List (Chart D))
        → f.worker ≡ sending batch
        → Step max_batch_size f
            (record f { worker = waiting; batches = f.batches ++ merge_same_chart batch ∷ [] })
