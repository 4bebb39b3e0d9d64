-- ===== src/Statistics/Answers.antt =====
-- What GetTickerPriceChangeStatistics of the repository answers.
use ohlcv.Base.{
  ◌≡◌, ◌≢◌, ◌⊎◌, refl, sym, ◌∙◌, ◌↔◌, pos, negsuc, ◌+ℤ◌, map, Run, eq_iff, arith, String, List, [],
  ◌∷◌, ℤ, done, then_run-done, All, Result, ok, err, done-injective, ok-injective,
}
use ohlcv.Decimal.{Decimals}
use ohlcv.Bson.{Bson, Fields, one, doc, items, date, utf8}
use ohlcv.Deals.{date_time}
use ohlcv.Consumers.{TickerStatistics}
use ohlcv.Statistics.{
  Floats, parse_statistics, parse_all, get_ticker_price_change_statistics, statistics_of_answer,
  statistics_pipeline, match_stage, from_time, asked_markets, minus_24h,
}
use ohlcv.Statistics.Typing.{IsStatistics, reading, parsed-IsStatistics, IsStatistics-parsed}

module _ {D S F : Type 0} (dec : Decimals D S) (fl : Floats F) where
  -- The records that documents are read as, in their order.
  abbrev pub readings : (resp : List (Fields D F)) → All IsStatistics resp → List TickerStatistics
  readings [] h = []
  readings (m ∷ resp) (first, h) = reading dec fl m first ∷ readings resp h

  parse_all-readings :
      (resp : List (Fields D F)) (h : All IsStatistics resp)
      → parse_all dec fl resp ≡ done (readings resp h)
  unfolding parse_all
  parse_all-readings [] h = refl
  parse_all-readings (m ∷ resp) (first, h) =
      rw (IsStatistics-parsed dec fl m first, parse_all-readings resp h) refl

  parse_all-IsStatistics :
      (resp : List (Fields D F)) (l : List TickerStatistics)
      → parse_all dec fl resp ≡ done l
      → All IsStatistics resp
  unfolding parse_all
  parse_all-IsStatistics [] l e = tt
  parse_all-IsStatistics (m ∷ resp) l e =
      let (s, parsed, e1) = then_run-done (parse_statistics dec fl m) _ l e in
      let (rest, later, e2) = then_run-done (parse_all dec fl resp) _ l e1 in
      (parsed-IsStatistics dec fl m s parsed, parse_all-IsStatistics resp rest later)

  -- An answer of Mongo, as the statistics.
  abbrev pub AnsweredBy : Result (Result (List (Fields D F))) → List TickerStatistics → Type 0
  AnsweredBy answer statistics =
      (resp : List (Fields D F)) × (h : All IsStatistics resp) × (answer ≡ ok (ok resp))
      × (statistics ≡ readings resp h)

  statistics_of_answer-AnsweredBy :
      (answer : Result (Result (List (Fields D F)))) (statistics : List TickerStatistics)
      → statistics_of_answer dec fl answer ≡ done (ok statistics)
      → AnsweredBy answer statistics
  unfolding statistics_of_answer
  statistics_of_answer-AnsweredBy (err x) statistics e = cc
  statistics_of_answer-AnsweredBy (ok (err x)) statistics e = cc
  statistics_of_answer-AnsweredBy (ok (ok resp)) statistics e =
      let (l, parsed, e1) = then_run-done (parse_all dec fl resp) _ (ok statistics) e in
      let h = parse_all-IsStatistics resp l parsed in
      (
        resp,
        h,
        refl,
        sym (ok-injective (done-injective e1))
            ∙ done-injective (sym parsed ∙ parse_all-readings resp h),
      )

  module _ (aggregate : List (Bson D F) → Result (Result (List (Fields D F)))) where
    -- The query that is made: its stages begin with the choice of the deals from a time on, in Unix
    -- milliseconds, and of some markets.
    abbrev pub IsQuery : ℤ → List String → List (Bson D F) → Type 0
    IsQuery from markets query =
        (others : List (Bson D F)) × (query
          ≡ one "$match" (
              doc (
                ("t", one "$gte" (date from))
                ∷ ("data.market", one "$in" (items (map utf8 markets)))
                ∷ []))
            ∷ others)

    abbrev pub IsAnswered : List String → ℤ → String → Run (Result (List TickerStatistics)) → Type 0
    IsAnswered all now market r =
        (from : ℤ) × (markets : List String) × (query : List (Bson D F)) × IsQuery from markets
          query
        × (from +ℤ pos 86_400_000 ≡ date_time now)
        × (((market ≡ "") × (markets ≡ all)) ⊎ ((market ≢ "") × (markets ≡ market ∷ [])))
        × ((statistics : List TickerStatistics)
            → (r ≡ done (ok statistics)) ↔ AnsweredBy (aggregate query) statistics)

    day_before : (now : ℤ) → from_time now minus_24h +ℤ pos 86_400_000 ≡ date_time now
    unfolding from_time date_time ◌+ℤ◌
    day_before (pos n) = ground arith
    day_before (negsuc n) = ground arith

    markets_cases :
        (all : List String) (market : String)
        → ((market ≡ "") × (asked_markets all market ≡ all))
          ⊎ ((market ≢ "") × (asked_markets all market ≡ market ∷ []))
    unfolding asked_markets
    markets_cases all market = ground (arith, eq_iff market "")

    -- One query is made, for the deals of the last 24 hours in whole milliseconds, of the market
    -- or, for "", of all of them. The statistics are answered exactly when Mongo answers it with
    -- documents that have the fields of the group with their types, and they are the readings of
    -- these documents, in their order.
    pub get_ticker_price_change_statistics-ok_iff :
        (collection_name : String) (all : List String) (now : ℤ) (market : String)
        → IsAnswered all now market
            (get_ticker_price_change_statistics dec fl aggregate collection_name all now market)
    unfolding get_ticker_price_change_statistics statistics_pipeline match_stage
    get_ticker_price_change_statistics-ok_iff collection_name all now market =
        let from = from_time now minus_24h in
        let query = statistics_pipeline collection_name from (asked_markets all market) in
        (
          from,
          asked_markets all market,
          query,
          (_, refl),
          day_before now,
          markets_cases all market,
          λ statistics. (
            λ e. statistics_of_answer-AnsweredBy (aggregate query) statistics e,
            λ (resp, h, e, same). rw (e, parse_all-readings resp h, same) refl,
          ),
        )
