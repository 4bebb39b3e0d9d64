-- ===== src/Service/Bins.antt =====
-- The queries that GetCandleByResolution makes.
use mathlib.Core.Option
use ohlcv.Base.{
  none-ne-some, ℕ, ◌*◌, ◌≡◌, refl, sym, ◌∙◌, ◌↔◌, inl, inr, true, String, List, [], ◌∷◌, Option,
  none, some, arith, Result, ok, err, done, panic, Option-cases,
}
use ohlcv.Resolution.Names.{
  Named, named, is_not_exist, is_not_exist_iff, candle_1m, candle_3m, candle_5m, candle_15m,
  candle_30m, candle_1h, candle_2h, candle_4h, candle_6h, candle_12h, candle_1mh, candle_1d,
  candle_1h2, candle_2h2, candle_4h2, candle_6h2, candle_12h2, candle_1w, candle_1mh2,
}
use ohlcv.Resolution.Duration.{duration, to_duration}
use ohlcv.Resolution.Units.{unit_length, IsMonthly}
use ohlcv.Candle.{Chart, set_market, set_resolution}
use ohlcv.Service.{Query, bins_of, first_chart, get_candles, get_candle_by_resolution}

bins_of-duration :
    (n : Named) (month year : ℕ)
    → ¬ IsMonthly n
    → unit_length (bins_of n).0 * (bins_of n).1 ≡ duration n month year
unfolding bins_of duration
bins_of-duration candle_1m month year h = omega arith
bins_of-duration candle_3m month year h = omega arith
bins_of-duration candle_5m month year h = omega arith
bins_of-duration candle_15m month year h = omega arith
bins_of-duration candle_30m month year h = omega arith
bins_of-duration candle_1h month year h = omega arith
bins_of-duration candle_2h month year h = omega arith
bins_of-duration candle_4h month year h = omega arith
bins_of-duration candle_6h month year h = omega arith
bins_of-duration candle_12h month year h = omega arith
bins_of-duration candle_1d month year h = omega arith
bins_of-duration candle_1h2 month year h = omega arith
bins_of-duration candle_2h2 month year h = omega arith
bins_of-duration candle_4h2 month year h = omega arith
bins_of-duration candle_6h2 month year h = omega arith
bins_of-duration candle_12h2 month year h = omega arith
bins_of-duration candle_1w month year h = omega arith
bins_of-duration candle_1mh month year h = absurd (h (inl refl))
bins_of-duration candle_1mh2 month year h = absurd (h (inr refl))

-- The first of the charts that Mongo answers.
abbrev pub answered {ℓ} : {A : Type ℓ} → Result (List A) → Option A
answered (err e) = none
answered (ok []) = none
answered (ok (a ∷ rest)) = some a

done-ne-panic : {A : Type 0} {a : A} → done a ≡ panic → ⊥
done-ne-panic h = cc

module _ {D : Type 0} (aggregate : Query → Result (List (Chart D))) where
  -- A chart with the market and the resolution of the request.
  abbrev pub labelled : String → String → Chart D → Chart D
  labelled market r k = record k { symbol = market; resolution = r }

  -- The query for a market and an interval of time, whose bins are as long as the resolution.
  pub record IsAsked (market r : String) (from to month year : ℕ) (q : Query) : Type 0 where
    pub market_asked : q.market ≡ market
    pub from_asked : q.from ≡ from
    pub to_asked : q.to ≡ to
    pub bins : unit_length q.unit * q.unit_size ≡ to_duration r month year

  pub asked : String → ℕ → ℕ → Named → Query
  asked market from to n = record {
    market = market;
    unit = (bins_of n).0;
    unit_size = (bins_of n).1;
    from = from;
    to = to;
  }

  pub labelled_answer :
      (market r : String) (from to : ℕ) (n : Named)
      → named r ≡ some n
      → get_candle_by_resolution aggregate market r from to
        ≡ done (Option.map (labelled market r) (answered (aggregate (asked market from to n))))
  unfolding get_candle_by_resolution get_candles asked set_market set_resolution first_chart
  labelled_answer market r from to n e =
      rw (e, get_candle_by_resolution) (by_answer (aggregate (asked market from to n)))
    where
      by_answer :
          (a : Result (List (Chart D)))
          → (elim (first_chart aggregate market a) [
            | none ↦ done none
            | some chart ↦ done (some (set_resolution chart r))
          ])
            ≡ done (Option.map (labelled market r) (answered a))
      by_answer (err x) = refl
      by_answer (ok []) = refl
      by_answer (ok (k ∷ ks)) = refl

  -- For a declared resolution that is not monthly, GetCandleByResolution makes one query, whose bins
  -- are as long as the resolution, and answers the first chart of Mongo's answer, with the market
  -- and the resolution of the request, or nil if there is none.
  pub get_candle_by_resolution-IsAsked :
      (market r : String) (from to month year : ℕ) (n : Named)
      → named r ≡ some n
      → ¬ IsMonthly n
      → (q : Query) × IsAsked market r from to month year q
        × (get_candle_by_resolution aggregate market r from to
            ≡ done (Option.map (labelled market r) (answered (aggregate q))))
  unfolding asked to_duration
  get_candle_by_resolution-IsAsked market r from to month year n e h = (
    asked market from to n,
    record {
      market_asked = refl;
      from_asked = refl;
      to_asked = refl;
      bins = rw e (bins_of-duration n month year h);
    },
    labelled_answer market r from to n e,
  )

  absent-panic :
      (market r : String) (from to : ℕ)
      → named r ≡ none
      → get_candle_by_resolution aggregate market r from to ≡ panic
  unfolding get_candle_by_resolution
  absent-panic market r from to e = rw (e, get_candle_by_resolution)

  -- GetCandleByResolution panics exactly for the texts that are no resolution.
  pub get_candle_by_resolution-panic_iff :
      (market r : String) (from to : ℕ)
      → (get_candle_by_resolution aggregate market r from to ≡ panic) ↔ (is_not_exist r ≡ true)
  get_candle_by_resolution-panic_iff market r from to = elim (Option-cases (named r)) [
    | inl e ↦ (λ _. (is_not_exist_iff r).1 e, λ _. absent-panic market r from to e)
    | inr (n, e) ↦ (
      λ p. absurd (done-ne-panic (sym (labelled_answer market r from to n e) ∙ p)),
      λ q. absurd (none-ne-some (sym ((is_not_exist_iff r).0 q) ∙ e)),
    )
  ]
