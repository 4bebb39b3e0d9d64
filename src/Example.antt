-- ===== src/Example.antt =====
-- Decimals and candles to evaluate the development on: a decimal is a tally, a text of as many
-- strokes as its coefficient, with exponent 0.
pub mod Candles
pub mod Running
pub mod Calendar
pub mod Charts
pub mod Wiring
pub mod Process
pub mod Database
pub mod Messages
pub mod Streams
pub mod Reports
use Prim.Native.String.{len, ◌++◌}
use text.Mathlib.TextPositions.{len-append}
use ohlcv.Base.{
  List, [], ◌∷◌, ℕ, suc, ◌+◌, ◌-◌, ◌<◌, ◌≡◌, refl, ap, sym, ◌∙◌, Bool, true, false, String, ℤ, pos,
  ok, err, Result, str_eq, eq_iff, ◌==◌, arith, ◌⊎◌, ◌>>=◌,
}
use ohlcv.Decimal.{Decimals, add_primitive_decimal128}
use ohlcv.Candle.{Candle, Chart}
use ohlcv.Current.{CurrentCandles, Deal, Visit}
use ohlcv.Current.Ohlc.{IsOrdinary, IsPositive}

abbrev pub tally : Decimals String String
tally = record {
  parse_decimal128 = λ s. ok s;
  to_text = λ s. s;
  big_int = λ s. ok (pos (len s), pos 0);
  is_zero = λ s. len s == 0;
  is_nan = λ s. false;
  is_inf = λ s. pos 0;
  empty = "";
  same = str_eq;
  same_iff = eq_iff;
  empty_sum = "";
  new_from_string = λ s. ok s;
  add = λ s t. s ++ t;
  sum_text = λ s. s;
}

suc-pos : (n m : ℕ) → n ≡ suc m → 0 < n
suc-pos n m h = omega (arith, h)

strokes :
    (s : String) (n : ℕ) (e : ℤ)
    → ◌≡◌ {A = Result (ℤ × ℤ)} (ok (pos (len s), pos 0)) (ok (pos (suc n), e))
    → len s ≡ suc n
strokes s n e h = cc

positive-len : (s : String) → IsPositive tally s → 0 < len s
positive-len s (n, e, h) = suc-pos (len s) n (strokes s n e h)

pub len-IsPositive : (s : String) → 0 < len s → IsPositive tally s
len-IsPositive s h =
    let n : len s ≡ suc (len s - 1) = omega arith in
    (len s - 1, pos 0, ap (λ k. ok (pos k, pos 0)) n)

sum-positive : (a b v : String) → 0 < len a → add_primitive_decimal128 tally a b ≡ ok v → 0 < len v
unfolding add_primitive_decimal128
sum-positive a b v h e = let same : (a ++ b) ≡ v = cc in rw (← same) (omega (arith, len-append a b))

pub tally-IsOrdinary : IsOrdinary tally
tally-IsOrdinary = record {
  zero_exponent = pos 0;
  empty_big_int = refl;
  empty_is_zero = refl;
  positive_is_zero = λ d p. let h = positive-len d p in ground arith;
  sum_positive = λ a b v p q e. len-IsPositive v (sum-positive a b v (positive-len a p) e);
}

-- 2020-02-29 12:00:30, and the start of its minute.
abbrev pub noon : ℕ
noon = 63_718_574_430_000_000_000

abbrev pub noon_minute : ℕ
noon_minute = 63_718_574_400_000_000_000

abbrev pub noon_nano : ℕ
noon_nano = 1_582_977_630_000_000_000

-- A deal of the given price, a second after noon.
abbrev pub deal_at : String → Deal
deal_at price = record {
  id = "7";
  market = "BTC/USDT";
  price = price;
  amount = "||";
  created_at = pos (noon_nano + 1_000_000_000);
  taker_order_id = "1";
  maker_order_id = "2";
  is_buyer_maker = true;
}

abbrev pub minute_visit : Visit
minute_visit = record { market = "BTC/USDT"; resolution = "1"; now = noon; later = noon }

abbrev pub hour_visit : Visit
hour_visit = record { market = "BTC/USDT"; resolution = "60"; now = noon; later = noon }

abbrev pub no_candles : CurrentCandles String
no_candles = record { candles = []; updates = [] }

-- A candle of the minute of noon.
abbrev pub minute_candle : Candle String
minute_candle = record {
  symbol = "BTC/USDT";
  resolution = "1";
  opening = "|||";
  high = "|||||";
  low = "||";
  closing = "||||";
  volume = "||||||";
  open_time = noon_minute;
  close_time = noon_minute + 59_999_999_999;
}

abbrev pub one_candle : CurrentCandles String
one_candle = record { candles = ("BTC/USDT", ("1", minute_candle) ∷ []) ∷ []; updates = [] }

-- A chart of one point.
abbrev pub chart_at : ℕ → Chart String
chart_at t = record {
  symbol = "BTC/USDT";
  resolution = "1";
  o = "|||" ∷ [];
  h = "|||||" ∷ [];
  l = "||" ∷ [];
  c = "||||" ∷ [];
  v = "||||||" ∷ [];
  t = pos t ∷ [];
}
