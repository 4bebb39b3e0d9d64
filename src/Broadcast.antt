-- ===== src/Broadcast.antt =====
-- infra/centrifuge/broadcaster.go: the channels of the charts, and the messages to them.
pub mod Channels
use Prim.Native.String.{◌++◌ as text_append}
use ohlcv.Base.{
  ℕ, ◌≡◌, Bool, String, List, [], ◌∷◌, Option, none, some, Assoc, lookup, insert, Run, done, panic,
  then_run,
}
use ohlcv.Resolution.Names.{Named, text, get_available_resolutions}
use ohlcv.Candle.{Chart}

-- domain.ChartChannel.
pub record ChartChannel : Type 0 where
  pub name : String
  pub market : String
  pub resolution : String

pub record MessageData : Type 0 where
  pub channel : String
  pub payload : String

-- "%s_%s_%s"
unfoldable pub new_chart_channel : String → String → ChartChannel
new_chart_channel market resolution = record {
  name =
      text_append "candle_chart"
        (text_append "_" (text_append market (text_append "_" resolution)));
  market = market;
  resolution = resolution;
}

-- The inner loop of GetChartsChannels.
unfoldable pub market_channels : String → List Named → Assoc ChartChannel → Assoc ChartChannel
market_channels market [] channels = channels
market_channels market (n ∷ ns) channels =
    market_channels market ns (insert (text n) (new_chart_channel market (text n)) channels)

-- The outer loop, over the map's values in the order that the range takes.
unfoldable pub get_charts_channels :
    List String → Assoc (Assoc ChartChannel) → Assoc (Assoc ChartChannel)
unfolding market_channels
get_charts_channels [] c = c
get_charts_channels (market ∷ markets) c =
    get_charts_channels markets
      (insert market (market_channels market get_available_resolutions []) c)

-- `b.Channels[symbol][resolution]`: a missing row is a nil map, and reads as nil.
unfoldable pub find_channel : String → Option (Assoc ChartChannel) → Option ChartChannel
find_channel resolution none = none
find_channel resolution (some row) = lookup resolution row

-- `marshal` is json.Marshal, whose error is not looked at.
module _ {D : Type 0} (marshal : Chart D → String) where
  -- The loop of BroadcastCandleCharts: `channel.Name` panics where the channel is nil.
  unfoldable pub broadcast_messages :
      Assoc (Assoc ChartChannel) → List (Chart D) → Run (List MessageData)
  unfolding find_channel
  broadcast_messages channels [] = done []
  broadcast_messages channels (chart ∷ charts) =
      elim (find_channel chart.resolution (lookup chart.symbol channels)) [
        | none ↦ panic
        | some channel ↦ then_run (broadcast_messages channels charts) (λ messages.
            done (record { channel = channel.name; payload = marshal chart } ∷ messages))
      ]
