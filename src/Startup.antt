-- ===== src/Startup.antt =====
-- cmd/consumer/main.go: the running candles are filled from Mongo, and their updates become charts.
pub mod Filling
pub mod Total
pub mod Process
pub mod Symbols
pub mod Listing
use ohlcv.Base.{
  ℕ, ◌≡◌, Bool, String, List, [], ◌∷◌, Option, none, some, ℤ, Assoc, lookup, insert, str_eq, Result,
  ok, err, Run, done, panic, then_run, if◌then◌else◌,
}
use ohlcv.Time.{unix}
use ohlcv.Resolution.Names.{Named, text, get_available_resolutions}
use ohlcv.Markets.{Market}
use ohlcv.Decimal.{Decimals}
use ohlcv.Candle.{Candle, Chart, chart_to_current_candle}
use ohlcv.Service.{Query, get_current_candle}
use ohlcv.Current.{CurrentCandles, add_candle}

-- GetAvailableMarketsMap of domain/market.go.
unfoldable pub get_available_markets_map : Assoc String → List Market → Assoc String
get_available_markets_map m [] = m
get_available_markets_map m (v ∷ markets) = get_available_markets_map (insert v.id v.name m) markets

-- The entry of a map, or the zero value "".
abbrev pub text_or_empty : Option String → String
text_or_empty none = ""
text_or_empty (some s) = s

-- The symbol that listenCurrentCandlesUpdates puts on the chart of an update.
unfoldable pub symbol_of : Assoc String → String → String
symbol_of markets_map symbol =
    let found = text_or_empty (lookup symbol markets_map) in
    if str_eq found "" then symbol else found

-- The body of its loop.
unfoldable pub chart_of_update : {D : Type 0} → Assoc String → Candle D → Chart D
unfolding symbol_of
chart_of_update markets_map upd = record {
  symbol = symbol_of markets_map upd.symbol;
  resolution = upd.resolution;
  o = upd.opening ∷ [];
  h = upd.high ∷ [];
  l = upd.low ∷ [];
  c = upd.closing ∷ [];
  v = upd.volume ∷ [];
  t = unix upd.open_time ∷ [];
}

-- The clock's answers for one market and resolution: to GetCurrentCandle, twice, and to AddCandle.
pub record Readings : Type 0 where
  pub now : ℕ
  pub later : ℕ
  pub last : ℕ

module _ {D S : Type 0} (dec : Decimals D S) (aggregate : Query → Result (List (Chart D))) where
  -- One round of initCurrentCandles. A panic stands for log.Fatal too: either ends the process.
  unfoldable pub init_one :
      CurrentCandles D → String → String → String → Readings → Run (CurrentCandles D)
  init_one candles market_id market_name resolution clock =
      then_run (get_current_candle aggregate market_name resolution clock.now clock.later) (λ chart.
        elim (chart_to_current_candle dec.empty chart resolution) [
          | err e ↦ panic
          | ok current_candle ↦
              done (add_candle dec candles market_id resolution current_candle clock.last)
        ])

  -- The rounds of one market, over the resolutions.
  unfoldable pub init_market :
      CurrentCandles D → String → String → List Named → (Named → Readings) → Run (CurrentCandles D)
  unfolding init_one
  init_market candles market_id market_name [] clock = done candles
  init_market candles market_id market_name (n ∷ ns) clock =
      then_run (init_one candles market_id market_name (text n) (clock n))
        (λ next. init_market next market_id market_name ns clock)

  -- The range over the markets, in the order that it takes; `clock` is asked for a market's
  -- identifier and a resolution.
  unfoldable pub init_current_candles :
      CurrentCandles D
      → List (String × String)
      → (String → Named → Readings)
      → Run (CurrentCandles D)
  unfolding init_market
  init_current_candles candles [] clock = done candles
  init_current_candles candles ((market_id, market_name) ∷ markets) clock =
      then_run
        (init_market candles market_id market_name get_available_resolutions (clock market_id))
        (λ next. init_current_candles next markets clock)
