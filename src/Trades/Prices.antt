-- ===== src/Trades/Prices.antt =====
-- What GetAvgPrice answers.
use mathlib.Core.Bool.{false≢true}
use ohlcv.Base.{
  ◌≡◌, refl, sym, ◌∙◌, ◌⊎◌, inl, inr, String, List, [], ◌∷◌, none, some, ℤ, str_eq, eq_iff, Result,
  ok, err, done, panic, Bool-cases,
}
use ohlcv.Text.{trim_space}
use ohlcv.Text.Spaces.{IsBlank, trim_space-empty_iff}
use ohlcv.Decimal.{Decimals}
use ohlcv.Bson.{Bson, Fields, value_at, as_decimal}
use ohlcv.Statistics.{Floats, from_time}
use ohlcv.Statistics.Typing.{HasDecimal, decimal_cases}
use ohlcv.Trades.{DealRepository, avg_pipeline, round_by_market, avg_of_answer, get_avg_price}

module _ {D S F : Type 0} (dec : Decimals D S) (fl : Floats F) (s : DealRepository)
    (market : String) where
  -- The price of an answer: "0" where Mongo finds no deals, and otherwise the average of the first
  -- document, rounded to the precision of the market.
  abbrev pub PriceOf : Result (Result (List (Fields D F))) → String → Type 0
  PriceOf answer price =
      ((answer ≡ ok (ok [])) × (price ≡ "0"))
      ⊎ ((first : Fields D F) × (resp : List (Fields D F)) × (avg : HasDecimal "avg" first)
          × (answer ≡ ok (ok (first ∷ resp)))
          × (price ≡ round_by_market dec fl s avg.0 market))

  -- The error of an answer.
  abbrev pub Fails : Result (Result (List (Fields D F))) → Type 0
  Fails answer = (e : String) × ((answer ≡ err e) ⊎ (answer ≡ ok (err e)))

  -- The first document has no average that is a decimal.
  abbrev pub IsIllTyped : Result (Result (List (Fields D F))) → Type 0
  IsIllTyped answer =
      (first : Fields D F) × (resp : List (Fields D F)) × (answer ≡ ok (ok (first ∷ resp)))
      × (HasDecimal "avg" first → ⊥)

  avg_of_answer-PriceOf :
      (answer : Result (Result (List (Fields D F))))
      → ((price : String) × (avg_of_answer dec fl s market answer ≡ done (price, none))
          × PriceOf answer price)
        ⊎ (((e : String) × (avg_of_answer dec fl s market answer ≡ done ("0", some e))
              × Fails answer)
            ⊎ ((avg_of_answer dec fl s market answer ≡ panic) × IsIllTyped answer))
  unfolding avg_of_answer as_decimal
  avg_of_answer-PriceOf (err x) = inr (inl (_, refl, (x, inl refl)))
  avg_of_answer-PriceOf (ok (err x)) = inr (inl (_, refl, (x, inr refl)))
  avg_of_answer-PriceOf (ok (ok [])) = inl ("0", refl, inl (refl, refl))
  avg_of_answer-PriceOf (ok (ok (first ∷ resp))) = elim (decimal_cases (value_at "avg" first)) [
    | inl avg ↦
        inl (
          round_by_market dec fl s avg.0 market,
          rw (avg.1) refl,
          inr (first, resp, avg, refl, refl),
        )
    | inr (panics, no_decimal) ↦ inr (inr (rw panics refl, (first, resp, refl, no_decimal)))
  ]

  -- GetAvgPrice makes one query. It answers the price of Mongo's answer, and no error; or the price
  -- "0" and an error, where the market is blank or Mongo fails; or it panics, where the market is
  -- not blank and Mongo's first document has no decimal as its average.
  pub get_avg_price-PriceOf :
      (aggregate : List (Bson D F) → Result (Result (List (Fields D F)))) (now minus_duration : ℤ)
      → let answer = aggregate (avg_pipeline (from_time now minus_duration) market) in
        let r = get_avg_price dec fl aggregate s now minus_duration market in
        ((IsBlank market → ⊥)
          × ((price : String) × (r ≡ done (price, none)) × PriceOf answer price))
        ⊎ (((e : String) × (r ≡ done ("0", some e)) × (IsBlank market ⊎ Fails answer))
            ⊎ ((IsBlank market → ⊥) × (r ≡ panic) × IsIllTyped answer))
  unfolding get_avg_price
  get_avg_price-PriceOf aggregate now minus_duration =
      elim (Bool-cases (str_eq (trim_space market) "")) [
        | inl blank ↦ inr (
            inl (
              "can't GetAvgPrice, empty symbol",
              rw (blank, get_avg_price) refl,
              inl ((trim_space-empty_iff market).0 ((eq_iff (trim_space market) "").0 blank)),
            ))
        | inr other ↦
            let no_blank = λ (b : IsBlank market).
              false≢true (
                sym other
                ∙ (eq_iff (trim_space market) "").1 ((trim_space-empty_iff market).1 b)) in
            elim (avg_of_answer-PriceOf
              (aggregate (avg_pipeline (from_time now minus_duration) market))) [
                | inl (price, e, p) ↦ inl (no_blank, (price, rw (other, get_avg_price) e, p))
                | inr (inl (x, e, fails)) ↦ inr (inl (x, rw (other, get_avg_price) e, inr fails))
                | inr (inr (e, ill)) ↦ inr (inr (no_blank, rw (other, get_avg_price) e, ill))
              ]
      ]
