-- ===== src/Api/Trading.antt =====
-- The statuses of the endpoint of the last trades.
use ohlcv.Base.{
  err-ne-ok, ◌≤◌, ◌≡◌, ◌≢◌, ◌↔◌, pos, false, ok-injective, str_eq, eq_iff, refl, sym, ap, ◌∙◌, ◌⊎◌,
  inl, inr, String, List, [], ◌∷◌, map, ℤ, pos_part, length, Assoc, Result, ok, err, Bool-cases,
  Result-cases,
}
use mathlib.Core.Bool.{false≢true}
use ohlcv.Text.{codes, parse_int}
use ohlcv.Text.Numbers.{IsSigned, parse_int_iff}
use ohlcv.Decimal.{Decimals}
use ohlcv.Deals.{StoredDeal}
use ohlcv.Trades.{FindQuery, incorrect_args, get_last_trades, trades_query}
use ohlcv.Trades.Limits.{IsAsked, IsWithin, incorrect_args_iff, at_most}
use ohlcv.Api.{
  ImplResponse, response, resp_error, message, trades, convert_deal, convert_deals,
  parse_int32_parameter, query_get, api_v1_trades_get, trades_endpoint,
}

convert_deals-map :
    {D S : Type 0} (dec : Decimals D S) (deals : List (StoredDeal D))
    → convert_deals dec deals ≡ map (convert_deal dec) deals
unfolding convert_deals
convert_deals-map dec [] = refl
convert_deals-map dec (deal ∷ deals) =
    ap (λ rest. convert_deal dec deal ∷ rest) (convert_deals-map dec deals)

-- The limit that a text stands for: 0 for none, and otherwise the number that it writes.
abbrev pub IsLimit : String → ℤ → Type 0
IsLimit param limit =
    ((param ≡ "") × (limit ≡ pos 0)) ⊎ ((param ≢ "") × IsSigned (codes param) limit)

module _ {D S F : Type 0} (dec : Decimals D S)
    (find : FindQuery D F → Result (List (StoredDeal D))) where
  -- What a request for the trades of a symbol comes to: 400 for wrong arguments; 500 and the error of
  -- Mongo; or 200 and the trades that Mongo answers to the one query, each converted, in their order.
  abbrev pub Answers : String → ℤ → ImplResponse → Type 0
  Answers symbol limit r =
      ((IsAsked symbol limit → ⊥) × (r ≡ response 400 (resp_error "")))
      ⊎ ((IsAsked symbol limit)
          × (((e : String) × (find (trades_query symbol limit) ≡ err e)
                × (r ≡ response 500 (resp_error e)))
              ⊎ ((deals : List (StoredDeal D)) × (find (trades_query symbol limit) ≡ ok deals)
                  × (length deals ≤ pos_part limit)
                  × (r ≡ response 200 (trades (map (convert_deal dec) deals))))))

  api_v1_trades_get-Answers :
      IsWithin find
      → (symbol : String) (limit : ℤ)
      → Answers symbol limit (api_v1_trades_get dec find symbol limit)
  unfolding api_v1_trades_get get_last_trades
  api_v1_trades_get-Answers within symbol limit = elim (Bool-cases (incorrect_args symbol limit)) [
    | inl incorrect ↦ inl (
      λ a. false≢true (sym ((incorrect_args_iff symbol limit).1 a) ∙ incorrect),
      rw (incorrect, api_v1_trades_get) refl,
    )
    | inr correct ↦
        let asked = (incorrect_args_iff symbol limit).0 correct in
        elim (Result-cases (find (trades_query symbol limit))) [
          | inl (e, fails) ↦
              inr (asked, inl (e, fails, rw (correct, fails, api_v1_trades_get) refl))
          | inr (deals, found) ↦ inr (
            asked,
            inr (
              deals,
              found,
              at_most find within symbol limit deals (asked.1) found,
              rw (correct, found, api_v1_trades_get, convert_deals-map dec deals) refl,
            ),
          )
        ]
  ]

  parse_int32_parameter_iff :
      (quote : String → String) (param : String) (limit : ℤ)
      → (parse_int32_parameter quote param ≡ ok limit) ↔ IsLimit param limit
  unfolding parse_int32_parameter
  parse_int32_parameter_iff quote param limit = elim (Bool-cases (str_eq param "")) [
    | inl empty ↦
        let none_given = (eq_iff param "").0 empty in
        (
          λ e. inl (none_given, sym (ok-injective (rw (empty, parse_int32_parameter) at e))),
          λ l. elim l [
            | inl (_, zero_limit) ↦ rw (empty, parse_int32_parameter) (ap ok (sym zero_limit))
            | inr (given, _) ↦ absurd (given none_given)
          ],
        )
    | inr other ↦
        let given = λ (h : param ≡ ""). false≢true (sym other ∙ (eq_iff param "").1 h) in
        (
          λ e. inr (given, (parse_int_iff param limit).0 (passed param limit other e)),
          λ l. elim l [
            | inl (none_given, _) ↦ absurd (given none_given)
            | inr (_, signed) ↦
                parsed_limit param limit other ((parse_int_iff param limit).1 signed)
          ],
        )
  ]
    where
      passed :
          (param : String) (limit : ℤ)
          → str_eq param "" ≡ false
          → parse_int32_parameter quote param ≡ ok limit
          → parse_int 32 param ≡ ok limit
      passed param limit other e = elim (Result-cases (parse_int 32 param)) [
        | inl (x, fails) ↦ absurd (err-ne-ok (rw (other, fails, parse_int32_parameter) at e))
        | inr (n, parsed) ↦ parsed ∙ (rw (other, parsed, parse_int32_parameter) at e)
      ]

      parsed_limit :
          (param : String) (limit : ℤ)
          → str_eq param "" ≡ false
          → parse_int 32 param ≡ ok limit
          → parse_int32_parameter quote param ≡ ok limit
      parsed_limit param limit other e = rw (other, e, parse_int32_parameter) refl

  -- A limit that is given and is no decimal number of 32 bits, with or without a sign, is answered
  -- 400 with an error. For any other, and if Find answers no more deals than its limit, the
  -- endpoint answers what the trades of the symbol come to for the limit, which is 0 if none is
  -- given: 400 for a blank symbol or a limit outside 1 … 999, and otherwise 500 and the error of
  -- Mongo, or 200 and the trades that Mongo answers to the one query, each converted, in their
  -- order, and no more than the limit.
  pub trades_endpoint-Answers :
      IsWithin find
      → (quote : String → String) (query : Assoc String)
      → ((((limit : ℤ) → IsLimit (query_get query "limit") limit → ⊥))
          × ((e : String) × (trades_endpoint dec find quote query ≡ response 400 (message e))))
        ⊎ ((limit : ℤ) × IsLimit (query_get query "limit") limit
            × Answers (query_get query "symbol") limit (trades_endpoint dec find quote query))
  unfolding trades_endpoint
  trades_endpoint-Answers within quote query =
      let param = query_get query "limit" in
      elim (Result-cases (parse_int32_parameter quote param)) [
        | inl (e, fails) ↦ inl (
          λ limit l. err-ne-ok (sym fails ∙ (parse_int32_parameter_iff quote param limit).1 l),
          (e, rw (fails, trades_endpoint) refl),
        )
        | inr (limit, parsed) ↦ inr (
          limit,
          (parse_int32_parameter_iff quote param limit).0 parsed,
          rw (parsed, trades_endpoint)
              (api_v1_trades_get-Answers within (query_get query "symbol") limit),
        )
      ]
