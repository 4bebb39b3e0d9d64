-- ===== src/Current.antt =====
-- candle/current_candles.go: the candles that are running now, by market and resolution. Each
-- operation holds the lock from end to end, so it is one step on the state. What it sends on
-- updatesStream is appended to `updates`.
pub mod Table
pub mod Setting
pub mod Update
pub mod Deals
pub mod Refresh
pub mod Fresh
pub mod Invariant
pub mod Sending
pub mod Ohlc
use Prim.Native.String.{◌++◌ as text_append}
use ohlcv.Base.{
  ℕ, ◌+◌, ◌≡◌, Bool, true, false, not, ◌||◌, String, List, [], ◌∷◌, ◌++◌, Option, none, some, ℤ,
  pos, ltb_ℤ, Assoc, lookup, insert, Result, ok, err, ◌>>=◌, Run, done, panic, then_run, or_panic,
  if◌then◌else◌,
}
use ohlcv.Time.{unix_nano, from_unix}
use ohlcv.Resolution.Duration.{calculate_close_time}
use ohlcv.Decimal.{Decimals, add_primitive_decimal128}
use ohlcv.Decimal.Compare.{compare_decimal128}
use ohlcv.Candle.{Candle, contains_ts, empty_candle, same_candle}
use ohlcv.Start.{get_resolution_start_timestamp_by_time}
use Table.{CandleTable, get_safe_candle, set_safe_candle}

-- The fields of a matcher.Deal message that the service reads.
pub record Deal : Type 0 where
  pub id : String
  pub market : String
  pub price : String
  pub amount : String
  pub created_at : ℤ
  pub taker_order_id : String
  pub maker_order_id : String
  pub is_buyer_maker : Bool

pub record CurrentCandles (D : Type 0) : Type 0 where
  pub candles : CandleTable D
  pub updates : List (Candle D)

-- The message that AddDeal wraps an error in.
abbrev pub failed_deal : String → String
failed_deal e = text_append "can't AddDeal to currentCandles: '" (text_append e "'")

-- One round of a range over a map: the key, and what timeNow() answers when getFreshCandle asks,
-- and then when buildFreshCandle asks. Go fixes no order of the rounds, so a loop takes them as a
-- list: one for each key of the map, as the body changes no key.
pub record Visit : Type 0 where
  pub market : String
  pub resolution : String
  pub now : ℕ
  pub later : ℕ

module _ {D S : Type 0} (dec : Decimals D S) where
  unfoldable pub build_fresh_candle : String → String → ℕ → Candle D
  unfolding empty_candle
  build_fresh_candle market resolution now =
      let open_time = from_unix (get_resolution_start_timestamp_by_time resolution now) in
      record (empty_candle dec.empty) {
        symbol = market;
        resolution = resolution;
        open_time = open_time;
        close_time = calculate_close_time open_time resolution;
      }

  unfoldable pub get_fresh_candle : CurrentCandles D → String → String → ℕ → ℕ → Candle D
  get_fresh_candle cc market resolution now later =
      elim (get_safe_candle cc.candles market resolution) [
        | none ↦ build_fresh_candle market resolution later
        | some candle ↦
            if contains_ts candle (unix_nano now)
            then candle
            else build_fresh_candle market resolution later
      ]

  -- setSafeCandle, and the send of the new candle.
  store_and_send :
      CurrentCandles D → String → String → Candle D → List (Candle D) → CurrentCandles D
  store_and_send cc market resolution candle first = record {
    candles = set_safe_candle cc.candles market resolution candle;
    updates = cc.updates ++ (first ++ candle ∷ []);
  }

  unfoldable pub set_candle :
      CurrentCandles D → String → String → Candle D → Bool → CurrentCandles D
  unfolding store_and_send
  set_candle cc market resolution candle is_refresh =
      elim (get_safe_candle cc.candles market resolution) [
        | none ↦ store_and_send cc market resolution candle []
        | some old ↦
            if same_candle dec.same old candle
            then cc
            else store_and_send cc market resolution candle (if is_refresh then old ∷ [] else [])
      ]

  unfoldable pub update_candle : Candle D → Deal → Result (Candle D)
  update_candle candle deal = do
    deal_price ← dec.parse_decimal128 deal.price
    let opening = if dec.is_zero candle.volume then deal_price else candle.opening
    deal_amount ← dec.parse_decimal128 deal.amount
    volume ← add_primitive_decimal128 dec deal_amount candle.volume
    high_cmp ← compare_decimal128 dec deal_price candle.high
    let high = if ltb_ℤ (pos 0) high_cmp then deal_price else candle.high
    low_cmp ← compare_decimal128 dec deal_price candle.low
    let low = if ltb_ℤ low_cmp (pos 0) || dec.is_zero candle.low then deal_price else candle.low
    ok (record candle {
      opening = opening;
      high = high;
      low = low;
      closing = deal_price;
      volume = volume;
    })

  -- The body of AddDeal's loop; the error leaves the loop.
  unfoldable pub add_deal_to : CurrentCandles D → Deal → Visit → Result (CurrentCandles D)
  add_deal_to cc deal v =
      let current = get_fresh_candle cc deal.market v.resolution v.now v.later in
      if not (contains_ts current deal.created_at)
      then ok cc
      else elim (update_candle current deal) [
        | err e ↦ err (failed_deal e)
        | ok candle ↦ ok (set_candle cc deal.market v.resolution candle false)
      ]

  -- AddDeal returns its error beside what the rounds before it have done.
  unfoldable pub add_deal :
      CurrentCandles D → Deal → List Visit → CurrentCandles D × Result (Unit {0})
  add_deal cc deal [] = (cc, ok tt)
  add_deal cc deal (v ∷ vs) = elim (add_deal_to cc deal v) [
    | ok cc' ↦ add_deal cc' deal vs
    | err e ↦ (cc, err e)
  ]

  unfoldable pub refresh_one : CurrentCandles D → Visit → Candle D → CurrentCandles D
  refresh_one cc v old =
      let new = get_fresh_candle cc v.market v.resolution v.now v.later in
      set_candle cc v.market v.resolution
        (record new {
          opening = old.closing;
          high = old.closing;
          low = old.closing;
          closing = old.closing;
        })
        true

  -- A round on a key with no candle would read through a nil pointer.
  unfoldable pub refresh_all : CurrentCandles D → List Visit → Run (CurrentCandles D)
  refresh_all cc [] = done cc
  refresh_all cc (v ∷ vs) = elim (get_safe_candle cc.candles v.market v.resolution) [
    | none ↦ panic
    | some old ↦ refresh_all (refresh_one cc v old) vs
  ]

  unfoldable pub add_candle : CurrentCandles D → String → String → Candle D → ℕ → CurrentCandles D
  add_candle cc market resolution candle now =
      set_candle cc market resolution
        (if same_candle dec.same candle (empty_candle dec.empty)
          then build_fresh_candle market resolution now
          else candle)
        false
