-- ===== src/Example/Process.antt =====
-- The theorems on the running candles of the whole process, applied to the examples.
use ohlcv.Base.{◌≡◌, refl, String, [], ◌∷◌, some, lookup, insert, done}
use ohlcv.Resolution.Names.{candle_1m, named, text}
use ohlcv.Candle.{Candle, Chart, chart_to_current_candle, empty_candle, same_candle}
use ohlcv.Service.{get_current_candle, get_candle_by_resolution, get_candles, bins_of}
use ohlcv.Current.{CurrentCandles, add_candle, set_candle, build_fresh_candle}
use ohlcv.Current.Table.{get_safe_candle, set_safe_candle}
use ohlcv.Current.Invariant.{IsValid}
use ohlcv.Startup.{init_one, chart_of_update}
use ohlcv.Startup.Process.{Reach, start, next, fills, Reach-IsValid, Reach-published}
use ohlcv.Batch.{Flow, waiting, merge_same_chart}
use ohlcv.Batch.Merge.{IsRectangular, IsPoint}
use ohlcv.Batch.Stream
use ohlcv.Example.{tally, noon, no_candles}
use ohlcv.Example.Wiring.{names, no_charts, IsNamed-market}

-- The first round of initCurrentCandles finds no deals, and stores a fresh candle.
abbrev fresh : Candle String
fresh = build_fresh_candle tally "BTC/USDT" "1" noon

abbrev after_round : CurrentCandles String
after_round = add_candle tally no_candles "BTC/USDT" "1" (empty_candle "") noon

round_done :
    init_one tally no_charts no_candles "BTC/USDT" "BTC_USDT"
      (text candle_1m)
      (record { now = noon; later = noon; last = noon })
    ≡ done after_round
unfolding init_one get_current_candle get_candle_by_resolution get_candles bins_of named text
    chart_to_current_candle
round_done = refl

round_reached : Reach tally no_charts names after_round
round_reached = next start (
    fills "BTC/USDT" "BTC_USDT" candle_1m (record { now = noon; later = noon; last = noon })
      IsNamed-market.known round_done)

fresh_stored : get_safe_candle after_round.candles "BTC/USDT" "1" ≡ some fresh
unfolding add_candle set_candle get_safe_candle set_safe_candle lookup insert same_candle
    empty_candle
fresh_stored = refl

Reach-IsValid_example : IsValid names after_round
Reach-IsValid_example = Reach-IsValid tally no_charts names after_round round_reached

Reach-published_example :
    ((chart_of_update names fresh).symbol ≡ "BTC_USDT")
    × ((chart_of_update names fresh).resolution ≡ "1")
    × IsRectangular (chart_of_update names fresh)
    × IsPoint (chart_of_update names fresh)
Reach-published_example =
    Reach-published tally no_charts names after_round "BTC/USDT" "BTC_USDT" "1" fresh round_reached
      IsNamed-market fresh_stored

abbrev update : Chart String
update = chart_of_update names fresh

abbrev update_sent : Flow String
update_sent = record {
  worker = waiting;
  received = update ∷ [];
  batches = merge_same_chart (update ∷ []) ∷ [];
}
