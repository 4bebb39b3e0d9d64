-- ===== src/Api/Routes.antt =====
-- The routes of api/generated/go/api_market.go, with its controllers, and NewRouter of routers.go.
use ohlcv.Base.{ℤ, ◌≡◌, refl, false, String, List, [], ◌∷◌, Assoc, Result, Run, done, str_eq, All}
use ohlcv.Decimal.{Decimals}
use ohlcv.Markets.{Market}
use ohlcv.Bson.{Bson, Fields}
use ohlcv.Deals.{StoredDeal}
use ohlcv.Statistics.{Floats}
use ohlcv.Trades.{DealRepository, FindQuery}
use ohlcv.Consumers.{TickerStatistics}
use ohlcv.Api.{
  ImplResponse, query_get, trades_endpoint, api_v3_avg_price_get, api_v3_ticker_24hr_get,
  v1_trading_stats_24h_all_get,
}

-- A Route, whose handler is an `H`.
pub record Route (H : Type 0) : Type 0 where
  pub name : String
  pub method : String
  pub pattern : String
  pub handler : H

-- A route of the package mux, with the methods that it takes.
pub record Registered (H : Type 0) : Type 0 where
  pub name : String
  pub methods : List String
  pub pattern : String
  pub handler : H

module _ {H : Type 0} where
  -- NewRouter, for the routes of all routers; Logger only logs.
  unfoldable pub new_router : List (Route H) → List (Registered H)
  new_router [] = []
  new_router (route ∷ routes) =
      record {
        name = route.name;
        methods = route.method ∷ "OPTIONS" ∷ [];
        pattern = route.pattern;
        handler = route.handler;
      }
      ∷ new_router routes

-- The four handlers, and the routes to them.
pub record Controllers (H : Type 0) : Type 0 where
  pub api_v1_trades_get : H
  pub api_v3_avg_price_get : H
  pub api_v3_ticker_24hr_get : H
  pub v1_trading_stats_24h_all_get : H

unfoldable pub routes : {H : Type 0} → Controllers H → List (Route H)
routes c =
    record {
      name = "ApiV1TradesGet";
      method = "GET";
      pattern = "/api/v1/trades";
      handler = c.api_v1_trades_get;
    }
    ∷ record {
      name = "ApiV3AvgPriceGet";
      method = "GET";
      pattern = "/api/v3/avgPrice";
      handler = c.api_v3_avg_price_get;
    }
    ∷ record {
      name = "ApiV3Ticker24hrGet";
      method = "GET";
      pattern = "/api/v3/ticker/24hr";
      handler = c.api_v3_ticker_24hr_get;
    }
    ∷ record {
      name = "V1TradingStats24hAllGet";
      method = "GET";
      pattern = "/v1/trading/stats/24h/all";
      handler = c.v1_trading_stats_24h_all_get;
    }
    ∷ []

-- The controllers, over the answers of the deals, of Mongo and of the client of the markets.
module _ {D S F : Type 0} (dec : Decimals D S) (fl : Floats F) (quote : String → String)
    (find : FindQuery D F → Result (List (StoredDeal D)))
    (aggregate : List (Bson D F) → Result (Result (List (Fields D F))))
    (statistics : String → Result (List TickerStatistics)) (list : Result (List Market))
    (s : DealRepository) (now : ℤ) where
  unfoldable pub ticker_endpoint : Assoc String → ImplResponse
  ticker_endpoint query = api_v3_ticker_24hr_get (statistics (query_get query "symbol"))

  unfoldable pub stats_endpoint : Assoc String → ImplResponse
  stats_endpoint query =
      v1_trading_stats_24h_all_get (statistics (query_get query "symbol")) list now

  unfoldable pub avg_price_endpoint : Assoc String → Run ImplResponse
  avg_price_endpoint query = api_v3_avg_price_get dec fl aggregate s now (query_get query "symbol")

  unfoldable pub controllers : Controllers (Assoc String → Run ImplResponse)
  unfolding ticker_endpoint stats_endpoint avg_price_endpoint
  controllers = record {
    api_v1_trades_get = λ query. done (trades_endpoint dec find quote query);
    api_v3_avg_price_get = avg_price_endpoint;
    api_v3_ticker_24hr_get = λ query. done (ticker_endpoint query);
    v1_trading_stats_24h_all_get = λ query. done (stats_endpoint query);
  }

-- No two routes that take a method have one pattern, so that their order does not matter.
abbrev pub IsUnambiguous : {H : Type 0} → List (Registered H) → Type 0
IsUnambiguous [] = Unit
IsUnambiguous (r ∷ rs) =
    All (λ s. (s.methods ≡ r.methods) × (str_eq r.pattern s.pattern ≡ false)) rs × IsUnambiguous rs

-- The routes of the API take the same methods at different patterns.
pub new_router-IsUnambiguous :
    {H : Type 0} (c : Controllers H) → IsUnambiguous (new_router (routes c))
unfolding new_router routes
new_router-IsUnambiguous c = (
  ((refl, refl), ((refl, refl), ((refl, refl), tt))),
  (((refl, refl), ((refl, refl), tt)), (((refl, refl), tt), (tt, tt))),
)
