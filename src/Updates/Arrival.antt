-- ===== src/Updates/Arrival.antt =====
-- What arrives at Centrifugo of the updates of the candles.
use mathlib.Core.List.{append_assoc, map-map}
use mathlib.Core.Path.{ap₂, subst}
use mathlib.Core.Bool.{false≢true}
use ohlcv.Base.{
  ℕ, ◌≤◌, length, ◌≡◌, ◌≢◌, refl, sym, ◌∙◌, ap, inl, inr, true, false, String, List, [], ◌∷◌, ◌++◌,
  map, some, Assoc, lookup, Result, ok, done, then_run, All, eq_iff, arith, none-ne-some,
  lookup-empty, Run, Bool-cases, str_eq,
}
use ohlcv.Resolution.Names.{is_not_exist}
use ohlcv.Candle.{Candle, Chart}
use ohlcv.Current.Invariant.{IsKeyed}
use ohlcv.Startup.{chart_of_update}
use ohlcv.Startup.Symbols.{IsNamed, chart_of_update-IsKeyed}
use ohlcv.Batch.{merge_same_chart, mergeable, joined, Flow}
use ohlcv.Batch.Merge.{all_of, points, merge_same_chart-columns, merge_same_chart-length}
use ohlcv.Batch.Stream.{Reach, Reach-Delivers, unsent, IsSized, concat}
use ohlcv.Broadcast.{MessageData, new_chart_channel, get_charts_channels}
use ohlcv.Broadcast.Channels.{listed, HasChannel, broadcast_messages-HasChannel}
use ohlcv.Events.{finished, outcome}
use ohlcv.Events.Meta.{Event, charts, new_event, must_get_charts}
use ohlcv.Events.Publishing.{publish-alone}
use ohlcv.Updates.{
  pipe_of, batch_publish, broadcast_candle_charts, handle_charts, subscribe_for_charts,
  publish_batch,
}

-- The range of GetChartsChannels gives every name of the map.
abbrev pub Ranges : Assoc String → List String → Type 0
Ranges names markets = (id name : String) → lookup id names ≡ some name → listed name markets ≡ true

-- In particular the order of the entries.
pub Ranges-values : (names : Assoc String) → Ranges names (map (λ entry. entry.1) names)
unfolding lookup
Ranges-values [] id name e = absurd (none-ne-some (sym (lookup-empty id) ∙ e))
Ranges-values ((key, value) ∷ names) id name e = elim (Bool-cases (str_eq key id)) [
  | inl same ↦ ground (arith, eq_iff name value, same, e)
  | inr other ↦ ground (arith, Ranges-values names id name, other, e)
]

-- A candle as it is stored for a market and a declared resolution.
abbrev pub IsStored : {D : Type 0} → Assoc String → Candle D → Type 0
IsStored names u =
    (id : String) × (name : String) × (r : String) × IsNamed names id name
    × IsKeyed names id r u
    × (is_not_exist r ≡ false)

pub All-front :
    {A : Type 0} (Holds : A → Type 0) (front back : List A)
    → All Holds (front ++ back)
    → All Holds front
All-front Holds [] back h = tt
All-front Holds (a ∷ front) back h = (h.0, All-front Holds front back h.1)

module _ {D : Type 0} where
  -- A property that the first of two merged charts hands on holds of the merge of a list.
  All-merge :
      (Holds : Chart D → Type 0)
      → ((a b : Chart D) → Holds a → Holds (joined a b))
      → (ks : List (Chart D)) → All Holds ks
      → All Holds (merge_same_chart ks)
  unfolding merge_same_chart
  All-merge Holds j [] h = tt
  All-merge Holds j (a ∷ []) h = h
  All-merge Holds j (a ∷ b ∷ rest) h = elim (Bool-cases (mergeable a b)) [
    | inl both ↦ rw (both, merge_same_chart) (j a b h.0, All-merge Holds j rest h.1.1)
    | inr apart ↦ rw (apart, merge_same_chart) (h.0, All-merge Holds j (b ∷ rest) h.1)
  ]

  All-back :
      (Holds : Chart D → Type 0) (front back : List (Chart D))
      → All Holds (front ++ back)
      → All Holds back
  All-back Holds [] back h = h
  All-back Holds (a ∷ front) back h = All-back Holds front back h.1

  All-batches :
      (Holds : Chart D → Type 0)
      → ((a b : Chart D) → Holds a → Holds (joined a b))
      → (raw : List (List (Chart D))) → All Holds (concat raw)
      → All (All Holds) (map merge_same_chart raw)
  All-batches Holds j [] h = tt
  All-batches Holds j (b ∷ raw) h = (
    All-merge Holds j b (All-front Holds b (concat raw) h),
    All-batches Holds j raw (All-back Holds b (concat raw) h),
  )

  all_of-append :
      {A : Type 0} (f : Chart D → List A) (front back : List (Chart D))
      → all_of f (front ++ back) ≡ all_of f front ++ all_of f back
  all_of-append f [] back = refl
  all_of-append f (k ∷ front) back =
      ap (◌++◌ (f k)) (all_of-append f front back) ∙ sym (append_assoc (f k) _ _)

  points-batches :
      (raw : List (List (Chart D)))
      → all_of points (concat (map merge_same_chart raw)) ≡ all_of points (concat raw)
  points-batches [] = refl
  points-batches (b ∷ raw) =
      all_of-append points (merge_same_chart b) _
      ∙ ap₂ ◌++◌ (merge_same_chart-columns b).5 (points-batches raw)
      ∙ sym (all_of-append points b (concat raw))

  updates-HasChannel :
      (marshal : Chart D → String) (names : Assoc String) (markets : List String)
      → Ranges names markets
      → (us : List (Candle D)) → All (IsStored names) us
      → All (HasChannel marshal markets) (map (chart_of_update names) us)
  updates-HasChannel marshal names markets ranges [] h = tt
  updates-HasChannel marshal names markets ranges (u ∷ us) h =
      let (id, name, r, named, keyed, exists) = h.0 in
      let (symbol, resolution, _, _) = chart_of_update-IsKeyed names id name r u named keyed in
      (
        (
          ap (λ s. listed s markets) symbol ∙ ranges id name named.known,
          ap is_not_exist resolution ∙ exists,
        ),
        updates-HasChannel marshal names markets ranges us h.1,
      )

-- The message of a chart: its channel is that of the chart's symbol and resolution.
abbrev pub message_of : {D : Type 0} → (Chart D → String) → Chart D → MessageData
message_of marshal k = record {
  channel = (new_chart_channel k.symbol k.resolution).name;
  payload = marshal k;
}

charts_named : ◌≢◌ {A = String} "charts" ""
charts_named e = false≢true ((eq_iff "charts" "").1 e)

outcome-done :
    {E A : Type 0} (f : E → Run A) (ev : E) (a : A)
    → f ev ≡ done a
    → outcome ev (some (λ e. then_run (f e) (λ x. done (ok tt)))) ≡ finished
unfolding outcome
outcome-done f ev a e = rw (e, outcome) refl

-- AddPublish accepts every message, with a command.
abbrev pub Accepts : {M : Type 0} → (MessageData → Result M) → (MessageData → M) → Type 0
Accepts add command = (m : MessageData) → add m ≡ ok (command m)

pipe_of-map :
    {M : Type 0} (add : MessageData → Result M) (command : MessageData → M)
    → Accepts add command
    → (ms : List MessageData) → pipe_of add ms ≡ map command ms
unfolding pipe_of
pipe_of-map add command accepts [] = refl
pipe_of-map add command accepts (m ∷ ms) =
    rw (accepts m, pipe_of-map add command accepts ms, pipe_of) refl

-- `T` is a deal, the other payload of an event.
module _ {D M : Type 0} (T : Type 0) (marshal : Chart D → String) (add : MessageData → Result M)
    (command : MessageData → M) (markets : List String) where
  -- The event of the batch runs the one handler, which ends without a panic or an error and hands the
  -- client a pipe with a command for each chart of the batch, in their order.
  abbrev pub IsSent : List (Chart D) → Type 0
  IsSent b =
      let channels = get_charts_channels markets [] in
      (publish_batch b (subscribe_for_charts marshal add channels {T = T} []) ≡ finished ∷ [])
      × (handle_charts marshal add channels {T = T} (new_event (charts b))
          ≡ done (some (map (λ k. command (message_of marshal k)) b)))

  batch_publish-map :
      Accepts add command
      → (b : List (Chart D)) → 1 ≤ length b
      → batch_publish add (map (message_of marshal) b)
        ≡ some (map (λ k. command (message_of marshal k)) b)
  unfolding batch_publish
  batch_publish-map accepts [] h = absurd (omega (arith, h))
  batch_publish-map accepts (k ∷ ks) h = ap some (
      pipe_of-map add command accepts (map (message_of marshal) (k ∷ ks))
      ∙ map-map command (message_of marshal) (k ∷ ks))

  handle_charts-HasChannel :
      (b : List (Chart D))
      → All (HasChannel marshal markets) b
      → handle_charts marshal add (get_charts_channels markets []) {T = T} (new_event (charts b))
        ≡ done (batch_publish add (map (message_of marshal) b))
  unfolding handle_charts broadcast_candle_charts must_get_charts new_event
  handle_charts-HasChannel b h = rw (broadcast_messages-HasChannel marshal markets b h) refl

  batch-IsSent :
      Accepts add command
      → (b : List (Chart D)) → All (HasChannel marshal markets) b
      → 1 ≤ length b
      → IsSent b
  unfolding publish_batch subscribe_for_charts outcome
  batch-IsSent accepts b h lo =
      let answer = handle_charts-HasChannel b h ∙ ap done (batch_publish-map accepts b lo) in
      (
        publish-alone "charts" _ _ charts_named
            ∙ ap (λ o. o ∷ [])
                (outcome-done {E = Event (Chart D) T}
                  (handle_charts marshal add (get_charts_channels markets [])) _ _ answer),
        answer,
      )

  batches-IsSent :
      Accepts add command
      → (limit : ℕ) (raw : List (List (Chart D))) → All (IsSized limit) raw
      → All (All (HasChannel marshal markets)) (map merge_same_chart raw)
      → All IsSent (map merge_same_chart raw)
  batches-IsSent accepts limit [] s h = tt
  batches-IsSent accepts limit (b ∷ raw) s h = (
    batch-IsSent accepts (merge_same_chart b) h.0 (omega (arith, s.0, merge_same_chart-length b)),
    batches-IsSent accepts limit raw s.1 h.1,
  )

  -- Every batch that Microbatching makes of the updates of stored candles is sent, and no point of an
  -- update is lost, repeated or moved, but for those that are unsent.
  pub Reach-IsSent :
      (names : Assoc String) (limit : ℕ) (f : Flow D) (us : List (Candle D))
      → Accepts add command
      → Ranges names markets
      → All (IsStored names) us
      → (reached : Reach limit f) → f.received ≡ map (chart_of_update names) us
      → All IsSent f.batches
        × (all_of points (map (chart_of_update names) us)
            ≡ all_of points (concat f.batches) ++ all_of points (unsent reached))
  Reach-IsSent names limit f us accepts ranges stored reached received =
      let d = Reach-Delivers limit f reached in
      let come : map (chart_of_update names) us ≡ concat d.raw ++ unsent reached =
        sym received ∙ d.accounted in
      let channelled = All-front (HasChannel marshal markets) (concat d.raw) (unsent reached) (
        subst (All (HasChannel marshal markets)) come
          (updates-HasChannel marshal names markets ranges us stored)) in
      (
        subst (All IsSent) (sym d.merged) (
            batches-IsSent accepts limit d.raw d.sized
              (All-batches (HasChannel marshal markets) (λ a b h. h) d.raw channelled)),
        ap (all_of points) come
            ∙ all_of-append points (concat d.raw) (unsent reached)
            ∙ ap (λ ps. ps ++ all_of points (unsent reached))
                (sym (points-batches d.raw) ∙ ap (λ bs. all_of points (concat bs)) (sym d.merged)),
      )
