-- ===== src/Requests/Chart.antt =====
-- GetCandleChart of api/http/handler/candle.go, but for the headers that it sets.
use ohlcv.Base.{
  ℕ, ◌||◌, String, ℤ, Assoc, lookup, List, Result, ok, err, Run, done, then_run, str_eq,
  if◌then◌else◌,
}
use Prim.Native.String.{◌++◌ as text_append}
use ohlcv.Text.{to_upper, parse_int}
use ohlcv.Time.{from_unix}
use ohlcv.Resolution.Names.{is_not_exist}
use ohlcv.Candle.{Chart}
use ohlcv.Markets.{normalize_market_name}
use ohlcv.Startup.{text_or_empty}
use ohlcv.Service.{Query, ChartResponse, get_chart}
use ohlcv.Requests.{truncate_interval}

pub record HttpAnswer : Type 0 where
  pub status : ℕ
  pub body : String

-- http.Error, which ends the text with a new line.
abbrev pub http_error : String → ℕ → HttpAnswer
http_error text code = record { status = code; body = text_append text "\n" }

abbrev pub illegal_unix_timestamp : HttpAnswer
illegal_unix_timestamp = record {
  status = 400;
  body = "illegal timestamp parameter: must be Unix seconds";
}

-- The answer with a chart; `marshal` is json.Marshal.
unfoldable pub chart_answer :
    {F : Type 0} → (ChartResponse F → Result String) → ChartResponse F → HttpAnswer
chart_answer marshal chart = elim (marshal chart) [
  | err e ↦ http_error e 500
  | ok bytes ↦ record { status = 200; body = bytes }
]

module _ {D F : Type 0} (to_float : D → F) (zero_float : F)
    (aggregate : Query → Result (List (Chart D))) (marshal : ChartResponse F → Result String) where
  -- From the interval on.
  unfoldable pub chart_between : String → String → ℤ → ℤ → Run HttpAnswer
  unfolding chart_answer
  chart_between market resolution from_seconds to_seconds =
      let (from, to) =
        truncate_interval (from_unix from_seconds) (from_unix to_seconds) resolution in
      then_run (get_chart to_float zero_float aggregate market resolution from to)
        (λ chart. done (chart_answer marshal chart))

  -- From the parsing of the timestamps on.
  unfoldable pub chart_of_texts : String → String → String → String → Run HttpAnswer
  unfolding chart_between
  chart_of_texts market resolution from_str to_str =
      if str_eq from_str "" || str_eq to_str ""
      then done illegal_unix_timestamp
      else elim (parse_int 64 from_str) [
        | err e ↦ done illegal_unix_timestamp
        | ok from_seconds ↦ elim (parse_int 64 to_str) [
          | err e ↦ done illegal_unix_timestamp
          | ok to_seconds ↦ chart_between market resolution from_seconds to_seconds
        ]
      ]

  -- The parameters are those of the query, or "" where they are missing.
  unfoldable pub get_candle_chart : Assoc String → Run HttpAnswer
  unfolding chart_of_texts
  get_candle_chart query =
      let market = normalize_market_name (text_or_empty (lookup "market" query)) in
      let resolution = to_upper (text_or_empty (lookup "interval" query)) in
      if str_eq market ""
      then done (http_error "market is required" 400)
      else if is_not_exist resolution
      then done (http_error "invalid interval value" 400)
      else chart_of_texts market resolution (text_or_empty (lookup "from" query))
          (text_or_empty (lookup "to" query))
