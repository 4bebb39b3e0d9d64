-- ===== src/Updates.antt =====
-- The way of the updates to Centrifugo: SubscribeForCharts of infra/centrifuge/broadcaster.go,
-- BatchPublish of infra/centrifuge/centrifuge.go, and the loop of listenCurrentCandlesUpdates in
-- cmd/consumer/main.go that publishes the batches.
pub mod Arrival
pub mod Whole
use ohlcv.Base.{
  String, List, [], ◌∷◌, Option, none, some, Assoc, Result, ok, err, Run, done, then_run,
}
use ohlcv.Candle.{Chart}
use ohlcv.Broadcast.{ChartChannel, MessageData, broadcast_messages}
use ohlcv.Events.{Handler, Outcome, subscribe, publish}
use ohlcv.Events.Meta.{Event, charts, new_event, must_get_charts}

-- `M` is a command of Centrifugo's client, and `add` is AddPublish of a pipe, which answers the
-- command that it adds or an error.
module _ {M : Type 0} (add : MessageData → Result M) where
  -- The loop of BatchPublish: an error is logged, and the message is left out.
  unfoldable pub pipe_of : List MessageData → List M
  pipe_of [] = []
  pipe_of (message ∷ messages) = elim (add message) [
    | err e ↦ pipe_of messages
    | ok command ↦ command ∷ pipe_of messages
  ]

  -- The pipe that is sent, if any. What SendPipe answers is logged only.
  unfoldable pub batch_publish : List MessageData → Option (List M)
  unfolding pipe_of
  batch_publish [] = none
  batch_publish (message ∷ messages) = some (pipe_of (message ∷ messages))

-- `marshal` is json.Marshal of a chart; `T` is a deal.
module _ {D M : Type 0} (marshal : Chart D → String) (add : MessageData → Result M)
    (channels : Assoc (Assoc ChartChannel)) where
  unfoldable pub broadcast_candle_charts : List (Chart D) → Run (Option (List M))
  unfolding batch_publish
  broadcast_candle_charts cht =
      then_run (broadcast_messages marshal channels cht)
        (λ messages. done (batch_publish add messages))

  -- The handler of SubscribeForCharts, with the pipe that it sends.
  unfoldable pub handle_charts : {T : Type 0} → Event (Chart D) T → Run (Option (List M))
  unfolding broadcast_candle_charts
  handle_charts e = then_run (must_get_charts e) broadcast_candle_charts

  unfoldable pub subscribe_for_charts :
      {T : Type 0}
      → Assoc (List (Handler (Event (Chart D) T)))
      → Assoc (List (Handler (Event (Chart D) T)))
  unfolding handle_charts
  subscribe_for_charts subscribers =
      subscribe "charts" (some (λ e. then_run (handle_charts e) (λ pipe. done (ok tt)))) subscribers

-- The batch's case of the goroutine in listenCurrentCandlesUpdates.
unfoldable pub publish_batch :
    {D T : Type 0} → List (Chart D) → Assoc (List (Handler (Event (Chart D) T))) → List Outcome
publish_batch batch subscribers = publish "charts" (new_event (charts batch)) subscribers
