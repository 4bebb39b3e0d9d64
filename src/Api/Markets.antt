-- ===== src/Api/Markets.antt =====
-- The statistics of the markets, and the average price, as responses.
use ohlcv.Base.{
  ◌≡◌, refl, ap, ◌∙◌, ◌⊎◌, inl, inr, String, List, [], ◌∷◌, map, Option, none, some, ℤ, Assoc,
  lookup, insert, lookup-insert, lookup-empty, str_eq, Result, ok, err, if◌then◌else◌,
}
use ohlcv.Bson.{Bson}
use ohlcv.Markets.{Market}
use ohlcv.Consumers.{TickerStatistics}
use ohlcv.Api.{
  response, inline_response_200, TickerAll, ticker_of, market_or_zero, build_markets_map,
  convert_statistics_all, v1_trading_stats_24h_all_get,
}

-- The last market of a name, if there are any.
abbrev pub last_named : String → List Market → Option Market → Option Market
last_named name [] found = found
last_named name (m ∷ markets) found =
    last_named name markets (if str_eq m.name name then some m else found)

lookup-build_markets_map :
    (name : String) (m : Assoc Market) (markets : List Market)
    → lookup name (build_markets_map m markets) ≡ last_named name markets (lookup name m)
unfolding build_markets_map
lookup-build_markets_map name m [] = refl
lookup-build_markets_map name m (mi ∷ markets) =
    lookup-build_markets_map name (insert mi.name mi m) markets
    ∙ ap (last_named name markets) (lookup-insert mi.name name mi m)

-- The record of a market's statistics, with the last market of their name.
abbrev pub quoted : List Market → TickerStatistics → TickerAll
quoted markets s = ticker_of (market_or_zero (last_named s.symbol markets none)) s

convert_statistics_all-quoted :
    (markets : List Market) (statistics : List TickerStatistics)
    → convert_statistics_all statistics (build_markets_map [] markets)
      ≡ map (quoted markets) statistics
unfolding convert_statistics_all
convert_statistics_all-quoted markets [] = refl
convert_statistics_all-quoted markets (s ∷ statistics) =
    rw
      (
        lookup-build_markets_map s.symbol [] markets,
        lookup-empty {A = Market} s.symbol,
        convert_statistics_all-quoted markets statistics,
      )
      refl

-- The endpoint of all statistics answers 500 if the statistics or the markets are an error, and
-- otherwise 200 with the statistics in their order, each beside the last market of its name, or the
-- zero market if there is none.
pub v1_trading_stats_24h_all_get-quoted :
    (answer : Result (List TickerStatistics)) (markets : Result (List Market)) (now : ℤ)
    → ((v1_trading_stats_24h_all_get answer markets now).code ≡ 500
        × (((e : String) × (answer ≡ err e)) ⊎ ((e : String) × (markets ≡ err e))))
      ⊎ ((statistics : List TickerStatistics) × (ms : List Market) × (answer ≡ ok statistics)
          × (markets ≡ ok ms)
          × (v1_trading_stats_24h_all_get answer markets now
              ≡ response 200 (inline_response_200 now (map (quoted ms) statistics))))
unfolding v1_trading_stats_24h_all_get
v1_trading_stats_24h_all_get-quoted (err e) markets now = inl (refl, inl (e, refl))
v1_trading_stats_24h_all_get-quoted (ok statistics) (err e) now = inl (refl, inr (e, refl))
v1_trading_stats_24h_all_get-quoted (ok statistics) (ok ms) now =
    inr (statistics, ms, refl, refl, rw (convert_statistics_all-quoted ms statistics) refl)
