-- ===== src/Example/Running.antt =====
-- The theorems on deals, decimals, charts and batches, applied to the examples.
use Prim.Native.String.{len}
use ohlcv.Base.{
  ok-injective, ℕ, ◌*◌, ◌^◌, ◌<◌, ◌≡◌, refl, String, List, [], ◌∷◌, some, pos, Result, ok, ◌↔◌, All,
  arith,
}
use ohlcv.Candle.{Candle, Chart, empty_candle, chart_to_current_candle}
use ohlcv.Time.{from_unix}
use ohlcv.Resolution.Duration.{calculate_close_time}
use ohlcv.Decimal.{add_primitive_decimal128}
use ohlcv.Decimal.Compare.{
  compare_decimal128, compare_parts, value_cmp, gap, compare_parts-value_iff,
}
use ohlcv.Batch.{merge_same_chart, waiting, Flow, first, more, sent, loop_head}
use ohlcv.Batch.Merge.{all_of, points, merge_same_chart-columns}
use ohlcv.Batch.Stream.{Reach, start, next, unsent, Delivers, Reach-Delivers}
use ohlcv.Current.{update_candle}
use ohlcv.Current.Ohlc.{Trade, IsTrade, update_all, update_all-ohlc}
use ohlcv.Example.{tally, tally-IsOrdinary, len-IsPositive, deal_at, chart_at}

abbrev trade_at : String → ℕ → Trade String
trade_at price n = record { deal = deal_at price; price = price; coefficient = n }

abbrev trades : List (Trade String)
trades = trade_at "|||||" 5 ∷ trade_at "||" 2 ∷ trade_at "||||" 4 ∷ []

abbrev traded : Candle String
traded = record (empty_candle "") {
  opening = "|||";
  high = "|||||";
  low = "||";
  closing = "||||";
  volume = "||||||||";
}

four_trades : update_all tally (empty_candle "") (trade_at "|||" 3 ∷ trades) ≡ ok traded
unfolding update_all update_candle add_primitive_decimal128 compare_decimal128 compare_parts
    empty_candle
four_trades = refl

two_strokes : (a : String) → ◌≡◌ {A = Result String} (ok "||") (ok a) → 0 < len a
two_strokes a h = let same : "||" ≡ a = ok-injective h in rw (← same) (omega arith)

IsTrade-trade_at :
    (price : String) (n : ℕ)
    → tally.big_int price ≡ ok (pos n, pos 0)
    → 0 < n
    → IsTrade tally (pos 0) (trade_at price n)
IsTrade-trade_at price n h p = record {
  price_ok = refl;
  big_int_ok = h;
  positive = p;
  amount_ok = λ a e. len-IsPositive a (two_strokes a e);
}

trades_are_trades : All (IsTrade tally (pos 0)) (trade_at "|||" 3 ∷ trades)
trades_are_trades = (
  IsTrade-trade_at "|||" 3 refl (omega arith),
  (
    IsTrade-trade_at "|||||" 5 refl (omega arith),
    (
      IsTrade-trade_at "||" 2 refl (omega arith),
      (IsTrade-trade_at "||||" 4 refl (omega arith), tt),
    ),
  ),
)

-- The example opens at 3, closes at 4, and has the high 5 and the low 2.
update_all-ohlc_example :
    (traded.opening ≡ "|||")
    × (traded.closing ≡ "||||")
    × (tally.big_int traded.high ≡ ok (pos 5, pos 0))
    × (tally.big_int traded.low ≡ ok (pos 2, pos 0))
unfolding empty_candle
update_all-ohlc_example =
    update_all-ohlc tally tally-IsOrdinary (pos 0) (empty_candle "") traded (trade_at "|||" 3)
      trades refl refl refl trades_are_trades four_trades

-- 300 is compared with 20: the exponents are 0 and 1.
compare_parts-value_iff_example :
    (compare_parts (pos 300, pos 0) (pos 2, pos 1) ≡ value_cmp (pos 300, pos 0) (pos 2, pos 1))
    ↔ (300 < 2 * 10 ^ gap (pos 1) (pos 0))
compare_parts-value_iff_example = compare_parts-value_iff 300 2 (pos 0) (pos 1) refl (omega arith)

abbrev from_chart : Candle String
from_chart = record {
  symbol = "BTC/USDT";
  resolution = "1";
  opening = "|||";
  high = "|||||";
  low = "||";
  closing = "||||";
  volume = "||||||";
  open_time = from_unix (pos 60);
  close_time = calculate_close_time (from_unix (pos 60)) "1";
}

from_chart_ok : chart_to_current_candle "" (some (chart_at 60)) "1" ≡ ok from_chart
unfolding chart_to_current_candle
from_chart_ok = refl

abbrev batch : List (Chart String)
batch = chart_at 60 ∷ chart_at 120 ∷ chart_at 120 ∷ []

merge_same_chart-columns_example :
    let ms = merge_same_chart batch in
    (all_of (λ k. k.o) ms ≡ all_of (λ k. k.o) batch)
    × (all_of (λ k. k.h) ms ≡ all_of (λ k. k.h) batch)
    × (all_of (λ k. k.l) ms ≡ all_of (λ k. k.l) batch)
    × (all_of (λ k. k.c) ms ≡ all_of (λ k. k.c) batch)
    × (all_of (λ k. k.v) ms ≡ all_of (λ k. k.v) batch)
    × (all_of points ms ≡ all_of points batch)
merge_same_chart-columns_example = merge_same_chart-columns batch

abbrev one_sent : Flow String
one_sent = record {
  worker = waiting;
  received = chart_at 60 ∷ chart_at 120 ∷ [];
  batches = merge_same_chart (chart_at 60 ∷ chart_at 120 ∷ []) ∷ [];
}

one_sent_reached : Reach 2 one_sent
unfolding loop_head
one_sent_reached =
    next
      (next (next start (first (chart_at 60) refl)) (more (chart_at 60 ∷ []) (chart_at 120) refl))
      (sent (chart_at 60 ∷ chart_at 120 ∷ []) refl)

Reach-Delivers_example : Delivers 2 one_sent (unsent one_sent_reached)
Reach-Delivers_example = Reach-Delivers 2 one_sent one_sent_reached
