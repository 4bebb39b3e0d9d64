-- ===== src/Api.antt =====
-- The public REST API: api/generated/go/api_market_service.go, which is written by hand, and the
-- controller and the routes that call it.
pub mod Trading
pub mod Markets
pub mod Routes
use Prim.Native.String.{◌++◌ as text_append}
use ohlcv.Base.{
  ℕ, ◌≡◌, Bool, false, ◌||◌, String, List, [], ◌∷◌, map, Option, none, some, ℤ, pos, negsuc,
  int32_of, str_eq, Assoc, lookup, insert, Result, ok, err, ◌>>=◌, Run, done, panic, then_run,
  if◌then◌else◌,
}
use ohlcv.Text.{trim_space, parse_int}
use ohlcv.Decimal.{Decimals}
use ohlcv.Markets.{Market, Currency}
use ohlcv.Bson.{Bson, Fields}
use ohlcv.Deals.{StoredDeal}
use ohlcv.Statistics.{Floats, minus_24h}
use ohlcv.Trades.{DealRepository, FindQuery, incorrect_args, get_last_trades, get_avg_price}
use ohlcv.Consumers.{TickerStatistics}
use ohlcv.Startup.{text_or_empty}

pub record Trade : Type 0 where
  pub id : String
  pub price : String
  pub qty : String
  pub quote_qty : String
  pub time : ℤ
  pub is_buyer_maker : Bool
  pub is_best_match : Bool

-- Ticker of the API.
pub record Quotation : Type 0 where
  pub symbol : String
  pub price_change : String
  pub price_change_percent : String
  pub prev_close_price : String
  pub last_price : String
  pub bid_price : String
  pub bid_qty : String
  pub ask_price : String
  pub ask_qty : String
  pub open_price : String
  pub high_price : String
  pub low_price : String
  pub volume : String
  pub quote_volume : String
  pub open_time : ℤ
  pub close_time : ℤ
  pub first_id : String
  pub last_id : String
  pub count : ℤ

pub record TickerAll : Type 0 where
  pub id : String
  pub market : String
  pub last_price : String
  pub maker_fee : String
  pub taker_fee : String
  pub precision : ℤ
  pub base_precision : ℤ
  pub quoted_precision : ℤ
  pub default_level : ℤ
  pub order_min_amount : String
  pub order_min_price : String
  pub order_min_size : String
  pub var24h_change : String
  pub var24h_change_percent : String
  pub var24h_high : String
  pub var24h_low : String
  pub var24h_volume : String
  pub base_currency : String
  pub quoted_currency : String

-- What a body is made of: RespError by its message, and InlineResponse200 by its time and its data.
pub data Body : Type 0 where
  resp_error : String → Body
  trades : List Trade → Body
  quotations : List Quotation → Body
  inline_response_200 : ℤ → List TickerAll → Body
  message : String → Body

-- ImplResponse.
pub record ImplResponse : Type 0 where
  pub code : ℕ
  pub body : Body

abbrev pub response : ℕ → Body → ImplResponse
response code body = record { code = code; body = body }

pub convert_deal : {D S : Type 0} → Decimals D S → StoredDeal D → Trade
convert_deal dec deal = record {
  id = deal.deal_data.deal_id;
  price = dec.to_text deal.deal_data.price;
  qty = dec.to_text deal.deal_data.volume;
  quote_qty = dec.to_text deal.deal_data.volume;
  time = deal.t;
  is_buyer_maker = deal.deal_data.is_buyer_maker;
  is_best_match = false;
}

unfoldable pub convert_deals : {D S : Type 0} → Decimals D S → List (StoredDeal D) → List Trade
unfolding convert_deal
convert_deals dec [] = []
convert_deals dec (deal ∷ rest) = convert_deal dec deal ∷ convert_deals dec rest

-- parseInt32Parameter of a parameter that is not required. `quote` is strconv.Quote.
unfoldable pub parse_int32_parameter : (String → String) → String → Result ℤ
parse_int32_parameter quote param =
    if str_eq param "" then ok (pos 0) else elim (parse_int 32 param) [
      | err e ↦ err (
          text_append "strconv.ParseInt: parsing " (text_append (quote param) (text_append ": " e)))
      | ok n ↦ ok n
    ]

-- r.URL.Query().Get(key): the first value, or "".
abbrev pub query_get : Assoc String → String → String
query_get query key = text_or_empty (lookup key query)

module _ {D S F : Type 0} (dec : Decimals D S)
    (find : FindQuery D F → Result (List (StoredDeal D))) where
  -- The service, and the controller over it: an error of parsing is answered by the error handler.
  unfoldable pub api_v1_trades_get : String → ℤ → ImplResponse
  unfolding convert_deals
  api_v1_trades_get symbol limit =
      if incorrect_args symbol limit
      then response 400 (resp_error "")
      else elim (get_last_trades find symbol limit) [
        | err e ↦ response 500 (resp_error e)
        | ok deals ↦ response 200 (trades (convert_deals dec deals))
      ]

  unfoldable pub trades_endpoint : (String → String) → Assoc String → ImplResponse
  unfolding parse_int32_parameter api_v1_trades_get
  trades_endpoint quote query = elim (parse_int32_parameter quote (query_get query "limit")) [
    | err e ↦ response 400 (message e)
    | ok limit ↦ api_v1_trades_get (query_get query "symbol") limit
  ]

convert_statistic : TickerStatistics → Quotation
convert_statistic s = record {
  symbol = s.symbol;
  price_change = s.price_change;
  price_change_percent = s.price_change_percent;
  prev_close_price = s.prev_close_price;
  last_price = s.last_price;
  bid_price = s.bid_price;
  bid_qty = s.bid_qty;
  ask_price = s.ask_price;
  ask_qty = s.ask_qty;
  open_price = s.open_price;
  high_price = s.high_price;
  low_price = s.low_price;
  volume = s.volume;
  quote_volume = s.quote_volume;
  open_time = s.open_time;
  close_time = s.close_time;
  first_id = s.first_id;
  last_id = s.last_id;
  count = s.count;
}

unfoldable pub convert_statistics : List TickerStatistics → List Quotation
unfolding convert_statistic
convert_statistics [] = []
convert_statistics (s ∷ statistics) = convert_statistic s ∷ convert_statistics statistics

-- What the service of the deals answers, of which the error is one of its type only.
unfoldable pub api_v3_ticker_24hr_get : Result (List TickerStatistics) → ImplResponse
unfolding convert_statistics
api_v3_ticker_24hr_get (err e) = response 500 (resp_error "")
api_v3_ticker_24hr_get (ok statistics) = response 200 (quotations (convert_statistics statistics))

-- buildMarketsMap, over the map so far.
unfoldable pub build_markets_map : Assoc Market → List Market → Assoc Market
build_markets_map m [] = m
build_markets_map m (mi ∷ markets) = build_markets_map (insert mi.name mi m) markets

abbrev pub no_currency : Currency
no_currency = record { id = ""; symbol = ""; precision = 0 }

-- The zero market.Market, which a missing key of the map gives.
abbrev pub no_market : Market
no_market = record {
  id = "";
  name = "";
  base_currency = no_currency;
  quoted_currency = no_currency;
  maker_fee = "";
  taker_fee = "";
  precision = pos 0;
  base_precision = pos 0;
  quoted_precision = pos 0;
  order_min_amount = "";
  order_min_price = "";
  order_min_size = "";
  order_price_deviation_percent = "";
  is_volatile = false;
}

abbrev pub market_or_zero : Option Market → Market
market_or_zero none = no_market
market_or_zero (some m) = m

unfoldable pub ticker_of : Market → TickerStatistics → TickerAll
ticker_of market_info s = record {
  id = market_info.id;
  market = s.symbol;
  last_price = s.last_price;
  maker_fee = market_info.maker_fee;
  taker_fee = market_info.taker_fee;
  precision = int32_of market_info.precision;
  base_precision = int32_of market_info.base_precision;
  quoted_precision = int32_of market_info.quoted_precision;
  default_level = pos 0;
  order_min_amount = market_info.order_min_amount;
  order_min_price = market_info.order_min_price;
  order_min_size = market_info.order_min_size;
  var24h_change = s.price_change;
  var24h_change_percent = s.price_change_percent;
  var24h_high = s.high_price;
  var24h_low = s.low_price;
  var24h_volume = s.quote_volume;
  base_currency = market_info.base_currency.symbol;
  quoted_currency = market_info.quoted_currency.symbol;
}

unfoldable pub convert_statistics_all : List TickerStatistics → Assoc Market → List TickerAll
unfolding ticker_of
convert_statistics_all [] markets_map = []
convert_statistics_all (s ∷ statistics) markets_map =
    ticker_of (market_or_zero (lookup s.symbol markets_map)) s
    ∷ convert_statistics_all statistics markets_map

-- V1TradingStats24hAllGet, over the answers of the deals and of the client of the markets; `now` is in
-- milliseconds.
unfoldable pub v1_trading_stats_24h_all_get :
    Result (List TickerStatistics) → Result (List Market) → ℤ → ImplResponse
unfolding convert_statistics_all build_markets_map
v1_trading_stats_24h_all_get (err e) markets now = response 500 (resp_error "")
v1_trading_stats_24h_all_get (ok statistics) (err e) now =
    response 500 (resp_error (text_append "marketClient.List:" e))
v1_trading_stats_24h_all_get (ok statistics) (ok markets) now =
    response 200
      (inline_response_200 now (convert_statistics_all statistics (build_markets_map [] markets)))

-- The pair of GetAvgPrice, as a response.
unfoldable pub price_response : String × Option String → ImplResponse
price_response (price, none) = response 200 (message price)
price_response (price, some e) = response 500 (resp_error "")

module _ {D S F : Type 0} (dec : Decimals D S) (fl : Floats F)
    (aggregate : List (Bson D F) → Result (Result (List (Fields D F)))) where
  unfoldable pub api_v3_avg_price_get : DealRepository → ℤ → String → Run ImplResponse
  unfolding price_response
  api_v3_avg_price_get s now market =
      if str_eq (trim_space market) ""
      then done (response 400 (resp_error "specify symbol"))
      else then_run (get_avg_price dec fl aggregate s now minus_24h market)
          (λ r. done (price_response r))
