-- ===== src/Requests/Answers.antt =====
-- What GetCandleChart answers.
use ohlcv.Base.{
  ◌≡◌, ◌≢◌, ◌⊎◌, false, String, Option, ℤ, Assoc, lookup, ℕ, some, List, Result, ok, err, Run, done,
  panic,
}
use ohlcv.Text.{to_upper, parse_int}
use ohlcv.Time.{from_unix}
use ohlcv.Resolution.Names.{is_not_exist}
use ohlcv.Candle.{Chart}
use ohlcv.Markets.{normalize_market_name}
use ohlcv.Startup.{text_or_empty}
use ohlcv.Service.{Query, ChartResponse, get_candle_by_resolution, make_chart_response}
use ohlcv.Service.Answers.{HasShortColumn}
use ohlcv.Requests.Interval.{IsInTime, Covers}
use ohlcv.Requests.Chart.{HttpAnswer, http_error}

abbrev pub parameter : String → Assoc String → String
parameter key query = text_or_empty (lookup key query)

abbrev pub market_of : Assoc String → String
market_of query = normalize_market_name (parameter "market" query)

abbrev pub resolution_of : Assoc String → String
resolution_of query = to_upper (parameter "interval" query)

-- What a request asks for: a market, a resolution and an interval.
pub record IsRequest (query : Assoc String) (from to : ℤ) : Type 0 where
  pub has_market : market_of query ≢ ""
  pub has_resolution : is_not_exist (resolution_of query) ≡ false
  pub starts : parse_int 64 (parameter "from" query) ≡ ok from
  pub ends : parse_int 64 (parameter "to" query) ≡ ok to

-- The times of a request are in the range of Go's times.
abbrev pub IsTimely : Assoc String → Type 0
IsTimely query = (from to : ℤ) → IsRequest query from to → IsInTime from to

module _ {D F : Type 0} (to_float : D → F) (zero_float : F)
    (aggregate : Query → Result (List (Chart D))) (marshal : ChartResponse F → Result String) where
  -- A bad request, or the answer with a chart.
  abbrev pub Refused : Assoc String → Run HttpAnswer → Type 0
  Refused query r =
      (((from to : ℤ) → IsRequest query from to → ⊥))
      × ((answer : HttpAnswer) × (r ≡ done answer) × (answer.status ≡ 400))

  -- What a chart comes to: a panic, where a column of it is shorter than the volumes; or the response
  -- that MakeChartResponse makes of it, as JSON, or the status 500 if it cannot be marshalled.
  abbrev pub Rendered : String → Option (Chart D) → Run HttpAnswer → Type 0
  Rendered market chart r =
      ((k : Chart D) × (chart ≡ some k) × HasShortColumn to_float zero_float k × (r ≡ panic))
      ⊎ ((response : ChartResponse F) × (make_chart_response to_float zero_float market chart
            ≡ done response)
          × (((bytes : String) × (marshal response ≡ ok bytes)
                × (r ≡ done (record { status = 200; body = bytes })))
              ⊎ ((e : String) × (marshal response ≡ err e) × (r ≡ done (http_error e 500)))))

  abbrev pub Charted : Assoc String → Run HttpAnswer → Type 0
  Charted query r =
      (from : ℤ) × (to : ℤ) × (interval : ℕ × ℕ) × (chart : Option (Chart D)) × IsRequest query from
        to
      × Covers (resolution_of query) (from_unix from) (from_unix to) interval
      × (get_candle_by_resolution aggregate (market_of query) (resolution_of query) interval.0
            interval.1
          ≡ done chart)
      × Rendered (market_of query) chart r
