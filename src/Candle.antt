-- ===== src/Candle.antt =====
-- domain/сandle.go: candles, charts, and the conversions between them. Times are those of Time, and
-- a column of a chart is a list.
pub mod Conversion
pub mod Same
use ohlcv.Base.{
  ℕ, ◌≡◌, Bool, ◌&&◌, String, List, [], ◌∷◌, Option, none, some, ℤ, leb_ℤ, ltb_ℤ, str_eq, last?,
  Result, ok, err, ◌>>=◌, ◌==◌, eqb_ℤ, if◌then◌else◌,
}
use ohlcv.Time.{unix_nano, from_unix}
use ohlcv.Resolution.Duration.{calculate_close_time}

pub record Candle (D : Type 0) : Type 0 where
  pub symbol : String
  pub resolution : String
  pub opening : D
  pub high : D
  pub low : D
  pub closing : D
  pub volume : D
  pub open_time : ℕ
  pub close_time : ℕ

pub record Chart (D : Type 0) : Type 0 where
  pub symbol : String
  pub resolution : String
  pub o : List D
  pub h : List D
  pub l : List D
  pub c : List D
  pub v : List D
  pub t : List ℤ

-- The last element of a column, or the error that it has none.
last_of {ℓ} : {A : Type ℓ} → List A → Result A
last_of xs = elim (last? xs) [ none ↦ err "unexpected len of chart: 0" | some x ↦ ok x ]

module _ {D : Type 0} where
  unfoldable pub contains_ts : Candle D → ℤ → Bool
  contains_ts c nano = leb_ℤ (unix_nano c.open_time) nano && ltb_ℤ nano (unix_nano c.close_time)

  unfoldable pub set_resolution : Chart D → String → Chart D
  set_resolution c r = record c { resolution = r }

  unfoldable pub set_market : Chart D → String → Chart D
  set_market c market = record c { symbol = market }

  -- Candle{}, with the zero Decimal128.
  unfoldable pub empty_candle : D → Candle D
  empty_candle zero_decimal = record {
    symbol = "";
    resolution = "";
    opening = zero_decimal;
    high = zero_decimal;
    low = zero_decimal;
    closing = zero_decimal;
    volume = zero_decimal;
    open_time = 0;
    close_time = 0;
  }

  -- Go's == on two candles, with == of the decimals given.
  unfoldable pub same_candle : (D → D → Bool) → Candle D → Candle D → Bool
  same_candle same a b =
      str_eq a.symbol b.symbol
      && (str_eq a.resolution b.resolution
          && (same a.opening b.opening
              && (same a.high b.high
                  && (same a.low b.low
                      && (same a.closing b.closing
                          && (same a.volume b.volume
                              && ((a.open_time == b.open_time)
                                  && (a.close_time == b.close_time))))))))

  -- chart is a pointer: `none` is nil.
  unfoldable pub chart_to_current_candle : D → Option (Chart D) → String → Result (Candle D)
  unfolding last_of empty_candle
  chart_to_current_candle zero_decimal none r = ok (empty_candle zero_decimal)
  chart_to_current_candle zero_decimal (some chart) r = do
    o ← last_of chart.o
    h ← last_of chart.h
    l ← last_of chart.l
    c ← last_of chart.c
    v ← last_of chart.v
    t ← last_of chart.t
    let open_time = from_unix t
    ok (record {
      symbol = chart.symbol;
      resolution = chart.resolution;
      opening = o;
      high = h;
      low = l;
      closing = c;
      volume = v;
      open_time = open_time;
      close_time = calculate_close_time open_time r;
    })
