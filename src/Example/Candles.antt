-- ===== src/Example/Candles.antt =====
-- The theorems on the map of running candles, applied to the examples.
use mathlib.Core.Bool.{false≢true}
use ohlcv.Base.{
  eq_iff, ◌≡◌, ◌≢◌, refl, inl, inr, true, String, [], ◌∷◌, some, ok, done, ◌↔◌, lookup, insert,
  ◌+ℤ◌,
}
use ohlcv.Resolution.Names.{candle_1m, named, named-text, text}
use ohlcv.Time.{unix_nano, from_unix, unix}
use ohlcv.Decimal.{add_primitive_decimal128}
use ohlcv.Decimal.Compare.{compare_decimal128}
use ohlcv.Start.{
  get_resolution_start_timestamp_by_time, start_ts, get_start_minute_ts, get_start_hour_ts,
}
use ohlcv.Resolution.Duration.{calculate_close_time, to_duration, duration}
use ohlcv.Candle.{same_candle, empty_candle, Candle, contains_ts}
use ohlcv.Current.Table.{get_safe_candle, set_safe_candle}
use ohlcv.Current.{
  CurrentCandles, build_fresh_candle, get_fresh_candle, add_deal_to, set_candle, update_candle,
  add_deal, refresh_one, refresh_all,
}
use ohlcv.Current.Fresh.{build_fresh_candle-contains_iff}
use ohlcv.Current.Deals.{add_deal-Dealt, add_deal-other, Dealt}
use ohlcv.Current.Refresh.{refresh_all-IsFlat, refresh_one-running, IsFlat}
use ohlcv.Example.{
  tally, noon, deal_at, minute_visit, hour_visit, no_candles, minute_candle, one_candle,
}

abbrev after_deal : CurrentCandles String
after_deal = (add_deal tally no_candles (deal_at "|||") (minute_visit ∷ hour_visit ∷ [])).0

deal_done :
    add_deal tally no_candles (deal_at "|||") (minute_visit ∷ hour_visit ∷ []) ≡ (after_deal, ok tt)
unfolding add_deal add_deal_to get_fresh_candle get_safe_candle lookup insert build_fresh_candle
    empty_candle get_resolution_start_timestamp_by_time named start_ts get_start_minute_ts
    get_start_hour_ts unix from_unix ◌+ℤ◌ unix_nano calculate_close_time to_duration duration
    contains_ts update_candle add_primitive_decimal128 compare_decimal128 set_candle set_safe_candle
    same_candle
deal_done = refl

other_resolution : ◌≢◌ {A = String} "60" "1"
other_resolution e = false≢true ((eq_iff "60" "1").1 e)

add_deal-Dealt_example : Dealt tally (deal_at "|||") no_candles after_deal minute_visit
add_deal-Dealt_example =
    add_deal-Dealt tally (deal_at "|||") no_candles after_deal (minute_visit ∷ hour_visit ∷ [])
      minute_visit ((other_resolution, tt), (tt, tt)) (inl refl) deal_done

add_deal-other_example :
    get_safe_candle
      (add_deal tally one_candle (deal_at "|||") (hour_visit ∷ [])).0.candles
      "BTC/USDT"
      "1"
    ≡ get_safe_candle one_candle.candles "BTC/USDT" "1"
add_deal-other_example =
    add_deal-other tally (deal_at "|||") one_candle (hour_visit ∷ []) "BTC/USDT" "1"
      (inr (other_resolution, tt))

one_candle_found : get_safe_candle one_candle.candles "BTC/USDT" "1" ≡ some minute_candle
unfolding get_safe_candle lookup
one_candle_found = refl

build_fresh_candle-contains_iff_example :
    (contains_ts (build_fresh_candle tally "BTC/USDT" "1" noon) (unix_nano noon) ≡ true)
    ↔ (noon ≢ (build_fresh_candle tally "BTC/USDT" "1" noon).close_time)
unfolding text
build_fresh_candle-contains_iff_example =
    build_fresh_candle-contains_iff tally "BTC/USDT" "1" candle_1m noon (named-text candle_1m) tt

abbrev after_refresh : CurrentCandles String
after_refresh = refresh_one tally one_candle minute_visit minute_candle

refresh_done : refresh_all tally one_candle (minute_visit ∷ []) ≡ done after_refresh
unfolding refresh_all get_safe_candle lookup
refresh_done = refl

refresh_all-IsFlat_example :
    (c : Candle String) × (get_safe_candle after_refresh.candles "BTC/USDT" "1" ≡ some c)
    × IsFlat "||||" c
refresh_all-IsFlat_example =
    refresh_all-IsFlat tally one_candle after_refresh (minute_visit ∷ []) "BTC/USDT" "1"
      minute_candle refresh_done one_candle_found (inl (refl, refl))

running : contains_ts minute_candle (unix_nano noon) ≡ true
unfolding contains_ts unix_nano
running = refl

refresh_one-running_example :
    get_safe_candle after_refresh.candles "BTC/USDT" "1"
    ≡ some
        (record minute_candle { opening = "||||"; high = "||||"; low = "||||"; closing = "||||" })
refresh_one-running_example =
    refresh_one-running tally one_candle minute_visit minute_candle one_candle_found running
