-- ===== src/Trades.antt =====
-- The rest of internal/repository/deal.go: the last trades and the average price, with the calls of
-- internal/service/deal.go that pass them on.
pub mod Limits
pub mod Prices
use Prim.Native.String.{◌++◌ as text_append}
use ohlcv.Base.{
  ◌≡◌, Bool, ◌||◌, String, List, [], ◌∷◌, map, Option, none, some, ℤ, pos, negsuc, leb_ℤ, str_eq,
  Assoc, Result, ok, err, ◌>>=◌, Run, done, panic, then_run, if◌then◌else◌,
}
use ohlcv.Text.{trim_space}
use ohlcv.Decimal.{Decimals}
use ohlcv.Markets.{Market}
use ohlcv.Bson.{Bson, Fields, utf8, date, int32, value_at, as_decimal, one, doc}
use ohlcv.Deals.{StoredDeal}
use ohlcv.Statistics.{Floats, from_time}

-- Deal of the repository.
pub record DealRepository : Type 0 where
  pub markets_map : Assoc String
  pub markets : List String
  pub markets_info : List Market

-- The range over the map, in the order that it takes.
names_of : Assoc String → List String
names_of [] = []
names_of ((id, m) ∷ markets_map) = m ∷ names_of markets_map

unfoldable pub new_deal : Assoc String → List Market → DealRepository
unfolding names_of
new_deal markets_map markets_info = record {
  markets_map = markets_map;
  markets = names_of markets_map;
  markets_info = markets_info;
}

-- What Find is asked for.
pub record FindQuery (D F : Type 0) : Type 0 where
  pub filter : Bson D F
  pub limit : ℤ
  pub sort : Bson D F

-- The guard of GetLastTrades.
unfoldable pub incorrect_args : String → ℤ → Bool
incorrect_args symbol limit =
    str_eq (trim_space symbol) "" || (leb_ℤ limit (pos 0) || leb_ℤ (pos 1000) limit)

unfoldable pub trades_query : {D F : Type 0} → String → ℤ → FindQuery D F
trades_query symbol limit = record {
  filter = one "data.market" (utf8 symbol);
  limit = limit;
  sort = one "t" (int32 (negsuc 0));
}

-- `find` answers the error of Find or of the cursor's All, or the deals; the nil slice is [].
unfoldable pub get_last_trades :
    {D F : Type 0}
    → (FindQuery D F → Result (List (StoredDeal D)))
    → String
    → ℤ
    → Result (List (StoredDeal D))
unfolding incorrect_args trades_query
get_last_trades find symbol limit =
    if incorrect_args symbol limit then ok [] else find (trades_query symbol limit)

-- The precision of the first market of the name, or 4.
unfoldable pub find_prec : String → List Market → ℤ
find_prec market [] = pos 4
find_prec market (i ∷ info) =
    if str_eq i.name market then i.base_precision else find_prec market info

unfoldable pub avg_pipeline : {D F : Type 0} → ℤ → String → List (Bson D F)
avg_pipeline from market =
    one "$match" (doc (("t", one "$gte" (date from)) ∷ ("data.market", utf8 market) ∷ []))
    ∷ one "$group"
        (doc (("_id", utf8 "$data.market") ∷ ("avg", one "$avg" (utf8 "$data.price")) ∷ []))
    ∷ []

module _ {D S F : Type 0} (dec : Decimals D S) (fl : Floats F) where
  unfoldable pub round_by_market : DealRepository → D → String → String
  unfolding find_prec
  round_by_market s decimal128 market = elim (fl.parse_float (dec.to_text decimal128)) [
    | err e ↦ "0"
    | ok f ↦ fl.format_float f (find_prec market s.markets_info)
  ]

  -- A Go pair of a text and an error, of which both may be set. Of the documents the first is read.
  avg_of_answer :
      DealRepository → String → Result (Result (List (Fields D F))) → Run (String × Option String)
  unfolding round_by_market
  avg_of_answer s market (err e) =
      done ("0", some (text_append "GetAvgPrice: Aggregate error '" (text_append e "'")))
  avg_of_answer s market (ok (err e)) =
      done ("0", some (text_append "GetAvgPrice: aggregate.All error '" (text_append e "'")))
  avg_of_answer s market (ok (ok [])) = done ("0", none)
  avg_of_answer s market (ok (ok (first ∷ resp))) =
      then_run (as_decimal (value_at "avg" first))
        (λ avg. done (round_by_market s avg market, none))

  -- GetAvgPrice of a duration, which is given as its negation.
  unfoldable pub get_avg_price :
      (List (Bson D F) → Result (Result (List (Fields D F))))
      → DealRepository
      → ℤ
      → ℤ
      → String
      → Run (String × Option String)
  unfolding avg_of_answer
  get_avg_price aggregate s now minus_duration market =
      if str_eq (trim_space market) ""
      then done ("0", some "can't GetAvgPrice, empty symbol")
      else avg_of_answer s market (aggregate (avg_pipeline (from_time now minus_duration) market))
