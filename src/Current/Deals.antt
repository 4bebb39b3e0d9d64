-- ===== src/Current/Deals.antt =====
-- What AddDeal does to the map of candles, in whatever order it visits the resolutions.
use ohlcv.Base.{
  ◌≡◌, ◌≢◌, refl, sym, ◌∙◌, ap, ◌⊎◌, inl, inr, true, false, String, List, [], ◌∷◌, some, arith, All,
  Result, ok, err, Bool-cases, Result-cases,
}
use ohlcv.Decimal.{Decimals}
use ohlcv.Candle.{Candle, contains_ts}
use ohlcv.Current.Table.{get_safe_candle}
use ohlcv.Current.Setting.{get_safe_candle-set_candle, at_keys_self, at_keys-other}
use ohlcv.Current.{
  CurrentCandles, Deal, Visit, get_fresh_candle, set_candle, update_candle, add_deal_to, add_deal,
}

-- No round is about the resolution.
abbrev pub Skips : String → List Visit → Type 0
Skips r = All (λ v. v.resolution ≢ r)

-- No resolution has two rounds, as in a range over a map.
abbrev pub Distinct : List Visit → Type 0
Distinct [] = Unit
Distinct (v ∷ vs) = Skips v.resolution vs × Distinct vs

abbrev pub HasVisit : Visit → List Visit → Type 0
HasVisit v [] = ⊥
HasVisit v (w ∷ ws) = (v ≡ w) ⊎ HasVisit v ws

Skips-ne :
    (r : String) (v : Visit) (vs : List Visit) → Skips r vs → HasVisit v vs → v.resolution ≢ r
Skips-ne r v [] s i = absurd i
Skips-ne r v (w ∷ ws) s (inl e) = λ p. s.0 (sym (ap (λ x. x.resolution) e) ∙ p)
Skips-ne r v (w ∷ ws) s (inr i) = Skips-ne r v ws s.1 i

module _ {D S : Type 0} (dec : Decimals D S) (deal : Deal) where
  -- The candle that the round starts from.
  abbrev pub current : CurrentCandles D → Visit → Candle D
  current st v = get_fresh_candle dec st deal.market v.resolution v.now v.later

  -- The outcome of a round for its own key: nothing, if the candle does not contain the deal's
  -- time; otherwise the updated candle.
  abbrev pub Dealt : CurrentCandles D → CurrentCandles D → Visit → Type 0
  Dealt st st' v =
      ((contains_ts (current st v) deal.created_at ≡ false)
        × (get_safe_candle st'.candles deal.market v.resolution
            ≡ get_safe_candle st.candles deal.market v.resolution))
      ⊎ ((c : Candle D) × (contains_ts (current st v) deal.created_at ≡ true)
          × (update_candle dec (current st v) deal ≡ ok c)
          × (get_safe_candle st'.candles deal.market v.resolution ≡ some c))

  pub add_deal_to-cases :
      (st st' : CurrentCandles D) (v : Visit)
      → add_deal_to dec st deal v ≡ ok st'
      → ((contains_ts (current st v) deal.created_at ≡ false) × (st ≡ st'))
        ⊎ ((c : Candle D) × (contains_ts (current st v) deal.created_at ≡ true)
            × (update_candle dec (current st v) deal ≡ ok c)
            × (set_candle dec st deal.market v.resolution c false ≡ st'))
  unfolding add_deal_to
  add_deal_to-cases st st' v e = elim (Bool-cases (contains_ts (current st v) deal.created_at)) [
    | inl within ↦ elim (Result-cases (update_candle dec (current st v) deal)) [
      | inl (x, fails) ↦ ground arith
      | inr (c, new) ↦ inr (c, within, new, ground arith)
    ]
    | inr out ↦ inl (out, ground arith)
  ]

  -- A round leaves every other key alone.
  add_deal_to-other :
      (st st' : CurrentCandles D) (v : Visit) (m r : String)
      → add_deal_to dec st deal v ≡ ok st'
      → (deal.market ≢ m) ⊎ (v.resolution ≢ r)
      → get_safe_candle st'.candles m r ≡ get_safe_candle st.candles m r
  add_deal_to-other st st' v m r e d = elim (add_deal_to-cases st st' v e) [
    | inl (_, same) ↦ rw (← same)
    | inr (c, _, _, set) ↦ rw (← set) (
        get_safe_candle-set_candle dec st deal.market v.resolution c false m r
        ∙ at_keys-other deal.market v.resolution m r (some c) _ d)
  ]

  add_deal_to-Dealt :
      (st st' : CurrentCandles D) (v : Visit) → add_deal_to dec st deal v ≡ ok st' → Dealt st st' v
  add_deal_to-Dealt st st' v e = elim (add_deal_to-cases st st' v e) [
    | inl (out, same) ↦ inl (out, rw (← same))
    | inr (c, within, new, set) ↦ inr (
      c,
      within,
      new,
      rw (← set) (
          get_safe_candle-set_candle dec st deal.market v.resolution c false deal.market
            v.resolution
          ∙ at_keys_self deal.market v.resolution (some c) _),
    )
  ]

  -- The fresh candle of a key depends on what is stored under that key alone.
  current-eq :
      (st st' : CurrentCandles D) (v : Visit)
      → get_safe_candle st'.candles deal.market v.resolution
        ≡ get_safe_candle st.candles deal.market v.resolution
      → current st' v ≡ current st v
  unfolding get_fresh_candle
  current-eq st st' v e = rw (e, get_fresh_candle)

  -- AddDeal touches no other market, and no resolution that it does not visit, whether it returns
  -- an error or not.
  pub add_deal-other :
      (st : CurrentCandles D) (vs : List Visit) (m r : String)
      → (deal.market ≢ m) ⊎ Skips r vs
      → get_safe_candle (add_deal dec st deal vs).0.candles m r ≡ get_safe_candle st.candles m r
  unfolding add_deal
  add_deal-other st [] m r d = refl
  add_deal-other st (v ∷ vs) m r d = elim (Result-cases (add_deal_to dec st deal v)) [
    | inl (x, e) ↦ rw (e, add_deal)
    | inr (st', e) ↦
        rw (e, add_deal)
          (add_deal-other st' vs m r (rest d) ∙ add_deal_to-other st st' v m r e (first d))
  ]
    where
      first : (deal.market ≢ m) ⊎ Skips r (v ∷ vs) → (deal.market ≢ m) ⊎ (v.resolution ≢ r)
      first (inl ne) = inl ne
      first (inr s) = inr s.0

      rest : (deal.market ≢ m) ⊎ Skips r (v ∷ vs) → (deal.market ≢ m) ⊎ Skips r vs
      rest (inl ne) = inl ne
      rest (inr s) = inr s.1

  add_deal-cons :
      (st st' : CurrentCandles D) (w : Visit) (ws : List Visit)
      → add_deal dec st deal (w ∷ ws) ≡ (st', ok tt)
      → (mid : CurrentCandles D) × (add_deal_to dec st deal w ≡ ok mid)
        × (add_deal dec mid deal ws ≡ (st', ok tt))
  unfolding add_deal
  add_deal-cons st st' w ws e = elim (Result-cases (add_deal_to dec st deal w)) [
    | inl (x, fails) ↦ absurd (no_error (ap (λ r. r.1) (rw (fails, add_deal) at e)))
    | inr (mid, first) ↦ (mid, first, rw (first, add_deal) at e)
  ]
    where
      no_error : {x : String} → ◌≡◌ {A = Result (Unit {0})} (err x) (ok tt) → ⊥
      no_error h = cc

  Dealt-final :
      (st mid st' : CurrentCandles D) (v : Visit)
      → get_safe_candle st'.candles deal.market v.resolution
        ≡ get_safe_candle mid.candles deal.market v.resolution
      → Dealt st mid v
      → Dealt st st' v
  Dealt-final st mid st' v e (inl (out, same)) = inl (out, e ∙ same)
  Dealt-final st mid st' v e (inr (c, within, new, stored)) = inr (c, within, new, e ∙ stored)

  Dealt-initial :
      (st mid st' : CurrentCandles D) (v : Visit)
      → get_safe_candle mid.candles deal.market v.resolution
        ≡ get_safe_candle st.candles deal.market v.resolution
      → Dealt mid st' v
      → Dealt st st' v
  Dealt-initial st mid st' v e (inl (out, same)) = inl (rw (current-eq st mid v e) at out, same ∙ e)
  Dealt-initial st mid st' v e (inr (c, within, new, stored)) =
      inr (c, rw (current-eq st mid v e) at within, rw (current-eq st mid v e) at new, stored)

  -- When AddDeal returns no error, each resolution that it visits has had its own round, on the
  -- candle that was stored before the call: the order of the visits does not matter.
  pub add_deal-Dealt :
      (st st' : CurrentCandles D) (vs : List Visit) (v : Visit)
      → Distinct vs
      → HasVisit v vs
      → add_deal dec st deal vs ≡ (st', ok tt)
      → Dealt st st' v
  add_deal-Dealt st st' [] v d i e = absurd i
  add_deal-Dealt st st' (w ∷ ws) v d (inl here) e =
      let (mid, first, rest) = add_deal-cons st st' w ws e in
      rw here (
        Dealt-final st mid st' w
          (sym (ap (λ r. get_safe_candle r.0.candles deal.market w.resolution) rest)
            ∙ add_deal-other mid ws deal.market w.resolution (inr d.0))
          (add_deal_to-Dealt st mid w first))
  add_deal-Dealt st st' (w ∷ ws) v d (inr later) e =
      let (mid, first, rest) = add_deal-cons st st' w ws e in
      Dealt-initial st mid st' v
        (add_deal_to-other st mid w deal.market v.resolution first
          (inr (λ same. Skips-ne w.resolution v ws d.0 later (sym same))))
        (add_deal-Dealt mid st' ws v d.1 later rest)
