-- ===== src/Example/Reports.antt =====
-- The theorems on the answers of the servers and of Mongo, applied to the examples.
use ohlcv.Base.{
  ◌≡◌, refl, ◌⊎◌, true, false, String, List, [], ◌∷◌, map, none, ℤ, pos, Assoc, lookup, length,
  Result, ok, err, done, arith,
}
use Prim.Native.String.{◌++◌ as text_append}
use ohlcv.Text.Replacing.{occurs}
use ohlcv.Bson.{Bson, Fields, decimal, date, int32, utf8, fields_of}
use ohlcv.Deals.{StoredDeal}
use ohlcv.Consumers.{TickerStatistics}
use ohlcv.Markets.{Market, Response, Url, flip_markets, normalize_market_name}
use ohlcv.Markets.Listing.{flipped}
use ohlcv.Markets.Names.{normalize_market_name-IsNormal, flip_markets-Flipped}
use ohlcv.Startup.Listing.{build_available_markets, build_available_markets-named}
use ohlcv.Startup.Symbols.{last_name}
use ohlcv.Statistics.{Floats, get_ticker_price_change_statistics}
use ohlcv.Statistics.Answers.{IsAnswered, get_ticker_price_change_statistics-ok_iff}
use ohlcv.Trades.{DealRepository, FindQuery}
use ohlcv.Trades.Limits.{IsWithin}
use ohlcv.Api.{
  response, message, inline_response_200, no_market, trades_endpoint, query_get,
  v1_trading_stats_24h_all_get,
}
use ohlcv.Api.Trading.{IsLimit, Answers, trades_endpoint-Answers}
use ohlcv.Api.Markets.{quoted, v1_trading_stats_24h_all_get-quoted}
use ohlcv.Service.{ChartResponse}
use ohlcv.Example.{tally}
use ohlcv.Example.Wiring.{bare_deal}
use ohlcv.Example.Messages.{quiet}

-- Floats that are texts.
abbrev texts : Floats String
texts = record {
  zero_float = "0";
  parse_float = λ s. ok s;
  format_float = λ f n. f;
  minus = λ a b. a;
  divided_by = λ a b. a;
}

abbrev one_report : Fields String String
one_report = fields_of (
    ("_id", utf8 "BTC_USDT")
    ∷ ("volume", decimal "||")
    ∷ ("quoteVolume", decimal "||||")
    ∷ ("count", int32 (pos 1))
    ∷ ("highPrice", decimal "||")
    ∷ ("lowPrice", decimal "||")
    ∷ ("openPrice", decimal "||")
    ∷ ("closePrice", decimal "||")
    ∷ ("openTime", date (pos 1))
    ∷ ("closeTime", date (pos 1))
    ∷ ("firstId", utf8 "7")
    ∷ ("lastId", utf8 "7")
    ∷ ("lastQty", decimal "||")
    ∷ [])

abbrev reports : List (Bson String String) → Result (Result (List (Fields String String)))
reports pipeline = ok (ok (one_report ∷ []))

get_ticker_price_change_statistics-ok_iff_example :
    IsAnswered tally texts reports []
      (pos 0)
      "BTC_USDT"
      (get_ticker_price_change_statistics tally texts reports "deals" [] (pos 0) "BTC_USDT")
get_ticker_price_change_statistics-ok_iff_example =
    get_ticker_price_change_statistics-ok_iff tally texts reports "deals" [] (pos 0) "BTC_USDT"

-- One deal, however many are asked for.
abbrev find_one : FindQuery String String → Result (List (StoredDeal String))
find_one q = ok (bare_deal ∷ [])

find_one-IsWithin : IsWithin find_one
find_one-IsWithin q n deals limited found =
    let same : bare_deal ∷ [] ≡ deals = cc in
    let one : length deals ≡ 1 = cc (same) in omega (arith, one)

abbrev query : Assoc String
query = ("symbol", "BTC_USDT") ∷ ("limit", "5") ∷ []

trades_endpoint-Answers_example :
    (((limit : ℤ) → IsLimit (query_get query "limit") limit → ⊥)
      × ((e : String) × (trades_endpoint tally find_one (λ s. s) query ≡ response 400 (message e))))
    ⊎ ((limit : ℤ) × IsLimit (query_get query "limit") limit
        × Answers tally find_one
            (query_get query "symbol")
            limit
            (trades_endpoint tally find_one (λ s. s) query))
trades_endpoint-Answers_example =
    trades_endpoint-Answers tally find_one find_one-IsWithin (λ s. s) query

abbrev bitcoin : Market
bitcoin = record no_market { id = "BTC/USDT"; name = "USDT/BTC" }

v1_trading_stats_24h_all_get-quoted_example :
    let r = v1_trading_stats_24h_all_get (ok (quiet ∷ [])) (ok (bitcoin ∷ [])) (pos 0) in
    ((r.code ≡ 500)
      × (((e : String) × (◌≡◌ {A = Result (List TickerStatistics)} (ok (quiet ∷ [])) (err e)))
          ⊎ ((e : String) × (◌≡◌ {A = Result (List Market)} (ok (bitcoin ∷ [])) (err e)))))
    ⊎ ((statistics : List TickerStatistics) × (ms : List Market) × (◌≡◌
          {A = Result (List TickerStatistics)}
          (ok (quiet ∷ []))
          (ok statistics))
        × (◌≡◌ {A = Result (List Market)} (ok (bitcoin ∷ [])) (ok ms))
        × (r ≡ response 200 (inline_response_200 (pos 0) (map (quoted ms) statistics))))
v1_trading_stats_24h_all_get-quoted_example =
    v1_trading_stats_24h_all_get-quoted (ok (quiet ∷ [])) (ok (bitcoin ∷ [])) (pos 0)

abbrev repository : DealRepository
repository = record { markets_map = []; markets = []; markets_info = [] }

abbrev averages : List (Bson String String) → Result (Result (List (Fields String String)))
averages pipeline = ok (ok (fields_of (("avg", decimal "||") ∷ []) ∷ []))

abbrev chart_query : Assoc String
chart_query = ("market", "BTC/USDT") ∷ ("interval", "1h") ∷ ("from", "60") ∷ ("to", "120") ∷ []

abbrev in_json : ChartResponse String → Result String
in_json k = ok "{}"

normalize_market_name-IsNormal_example :
    (occurs "/" (normalize_market_name "BTC%2FUSDT") ≡ false)
    × (occurs "%2F" (normalize_market_name "BTC%2FUSDT") ≡ false)
    × (occurs "/" "BTC%2FUSDT" ≡ false
        → occurs "%2F" "BTC%2FUSDT" ≡ false
        → normalize_market_name "BTC%2FUSDT" ≡ "BTC%2FUSDT")
normalize_market_name-IsNormal_example = normalize_market_name-IsNormal "BTC%2FUSDT"

flip_markets-Flipped_example :
    ((occurs "/" "BTC/PXP" ≡ false) × (flip_markets "BTC/PXP" "/" ≡ "BTC/PXP"))
    ⊎ ((front : String) × (back : String) × ("BTC/PXP" ≡ text_append front (text_append "/" back))
        × (occurs "/" front ≡ false)
        × (flip_markets "BTC/PXP" "/" ≡ text_append back (text_append "_" front)))
flip_markets-Flipped_example = flip_markets-Flipped "BTC/PXP"

abbrev address : Url
address = record { scheme = "https"; host = "example.org"; path = "" }

abbrev listed : Response
listed = record { status_code = 200; body = "[]" }

build_available_markets-named_example :
    (names : Assoc String) × (build_available_markets
        (λ n. "")
        (λ b. ok (bitcoin ∷ []))
        (λ r. ok listed)
        (λ u. ok address)
        "https://example.org"
        true
        "secret"
      ≡ done (names, map flipped (bitcoin ∷ [])))
    × ((id : String) → lookup id names ≡ last_name id (map flipped (bitcoin ∷ [])) none)
build_available_markets-named_example =
    build_available_markets-named (λ n. "") (λ b. ok (bitcoin ∷ [])) (λ r. ok listed)
      (λ u. ok address) "https://example.org" true "secret" address listed (bitcoin ∷ []) refl
      (λ r asked. refl) refl refl
