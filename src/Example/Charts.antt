-- ===== src/Example/Charts.antt =====
-- The theorems on aggregated charts and on the answers to requests, applied to the examples.
use mathlib.Core.Option
use ohlcv.Base.{
  ◌+◌, ◌≡◌, refl, inl, inr, ◌↔◌, true, String, List, [], ◌∷◌, some, pos, Result, ok, done, panic,
}
use ohlcv.Resolution.Names.{named-text, text, candle_5m, candle_15m, is_not_exist}
use ohlcv.Candle.{Candle, Chart}
use ohlcv.Aggregate.{compare, aggregate_candle_to_chart_by_resolution}
use ohlcv.Aggregate.Pairs.{compare-high_low}
use ohlcv.Aggregate.Points.{ChartOf, aggregate_candle_to_chart_by_resolution-ChartOf}
use ohlcv.Service.{Query, get_candle_by_resolution}
use ohlcv.Service.Bins.{
  IsAsked, answered, labelled, get_candle_by_resolution-IsAsked, get_candle_by_resolution-panic_iff,
}
use ohlcv.Example.{tally, noon, minute_candle, noon_minute, chart_at}

-- A candle of the minute after, with a higher high.
abbrev later_candle : Candle String
later_candle = record minute_candle { high = "||||||||"; open_time = noon_minute + 60_000_000_000 }

-- The high of 8 strokes, and the zero in place of the equal lows.
compare-high_low_example :
    ((compare tally minute_candle later_candle).high ≡ "||||||||")
    × ((compare tally minute_candle later_candle).low ≡ "")
compare-high_low_example =
    compare-high_low tally minute_candle later_candle 5 8 2 2 (pos 0) (pos 0) refl refl refl refl

aggregate_candle_to_chart_by_resolution-ChartOf_example :
    (k : Chart String) × (aggregate_candle_to_chart_by_resolution tally
        (λ b. b)
        (some (minute_candle ∷ later_candle ∷ []))
        "BTC_USDT"
        (text candle_5m)
        noon
      ≡ some k)
    × ChartOf tally (λ b. b) "BTC_USDT" (text candle_5m) (minute_candle ∷ later_candle ∷ []) k
aggregate_candle_to_chart_by_resolution-ChartOf_example =
    aggregate_candle_to_chart_by_resolution-ChartOf tally (λ b. b) "BTC_USDT" (text candle_5m)
      candle_5m (minute_candle ∷ later_candle ∷ []) noon (λ b h. (h, λ ts. refl))
      (named-text candle_5m) (refl, (refl, tt))

-- Mongo with one chart for every query.
abbrev one_chart : Query → Result (List (Chart String))
one_chart q = ok (chart_at 60 ∷ [])

get_candle_by_resolution-IsAsked_example :
    (q : Query) × IsAsked one_chart "BTC_USDT" (text candle_15m) noon_minute noon 2 2020 q
    × (get_candle_by_resolution one_chart "BTC_USDT" (text candle_15m) noon_minute noon
        ≡ done
            (Option.map (labelled one_chart "BTC_USDT" (text candle_15m)) (answered (one_chart q))))
get_candle_by_resolution-IsAsked_example =
    get_candle_by_resolution-IsAsked one_chart "BTC_USDT" (text candle_15m) noon_minute noon 2 2020
      candle_15m (named-text candle_15m) (λ m. elim m [ inl e ↦ cc | inr e ↦ cc ])

get_candle_by_resolution-panic_iff_example :
    (get_candle_by_resolution one_chart "BTC_USDT" "17" noon_minute noon ≡ panic)
    ↔ (is_not_exist "17" ≡ true)
get_candle_by_resolution-panic_iff_example =
    get_candle_by_resolution-panic_iff one_chart "BTC_USDT" "17" noon_minute noon
