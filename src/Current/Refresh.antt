-- ===== src/Current/Refresh.antt =====
-- What refreshAll does to the candles, in whatever order it visits them.
use mathlib.Core.Path.{subst, subst₂}
use ohlcv.Base.{
  done-injective, some-injective, panic-ne-done, ◌≡◌, ◌≢◌, refl, sym, ◌∙◌, ap, ◌⊎◌, inl, inr, true,
  String, List, [], ◌∷◌, some, arith, str_eq, eq_iff, All, done, Bool-cases, Option-cases,
}
use ohlcv.Decimal.{Decimals}
use ohlcv.Time.{unix_nano}
use ohlcv.Candle.{Candle, contains_ts}
use ohlcv.Current.Table.{get_safe_candle}
use ohlcv.Current.Setting.{get_safe_candle-set_candle, at_keys, at_keys_self, at_keys-other}
use ohlcv.Current.{CurrentCandles, Visit, get_fresh_candle, refresh_one, refresh_all}

-- Open, high, low and close are all the given price.
pub record IsFlat {D : Type 0} (price : D) (c : Candle D) : Type 0 where
  pub opening : c.opening ≡ price
  pub high : c.high ≡ price
  pub low : c.low ≡ price
  pub closing : c.closing ≡ price

abbrev pub Visits : String → String → List Visit → Type 0
Visits m r [] = ⊥
Visits m r (v ∷ vs) = ((v.market ≡ m) × (v.resolution ≡ r)) ⊎ Visits m r vs

-- The keys of a visit are the given ones, or not.
abbrev Same : Visit → String → String → Type 0
Same v m r = (v.market ≡ m) × (v.resolution ≡ r)

Same-cases : (v : Visit) (m r : String) → Same v m r ⊎ ((v.market ≢ m) ⊎ (v.resolution ≢ r))
Same-cases v m r = ground (
  arith,
  eq_iff v.market m,
  eq_iff v.resolution r,
  Bool-cases (str_eq v.market m),
  Bool-cases (str_eq v.resolution r),
)

later_visit :
    (v : Visit) (vs : List Visit) (m r : String)
    → (v.market ≢ m) ⊎ (v.resolution ≢ r)
    → Visits m r (v ∷ vs)
    → Visits m r vs
later_visit v vs m r (inl ne) (inl same) = absurd (ne same.0)
later_visit v vs m r (inr ne) (inl same) = absurd (ne same.1)
later_visit v vs m r _ (inr later) = later

-- The candle found by a visit of the same keys is the one stored there.
found_there :
    {D : Type 0} (st : CurrentCandles D) (v : Visit) (m r : String) (c old : Candle D)
    → get_safe_candle st.candles m r ≡ some c
    → get_safe_candle st.candles v.market v.resolution ≡ some old
    → Same v m r
    → c ≡ old
found_there st v m r c old stored found same = some-injective (sym stored ∙ cc (same.0, same.1))

module _ {D S : Type 0} (dec : Decimals D S) where
  -- The candle that replaces an old one.
  abbrev pub flattened : CurrentCandles D → Visit → Candle D → Candle D
  flattened st v old = record (get_fresh_candle dec st v.market v.resolution v.now v.later) {
    opening = old.closing;
    high = old.closing;
    low = old.closing;
    closing = old.closing;
  }

  stored_by_round :
      (st : CurrentCandles D) (v : Visit) (old : Candle D) (m r : String)
      → get_safe_candle (refresh_one dec st v old).candles m r
        ≡ at_keys v.market v.resolution m r
            (some (flattened st v old))
            (get_safe_candle st.candles m r)
  unfolding refresh_one
  stored_by_round st v old m r =
      get_safe_candle-set_candle dec st v.market v.resolution (flattened st v old) true m r

  pub refresh_all-cons :
      (st st' : CurrentCandles D) (v : Visit) (vs : List Visit)
      → refresh_all dec st (v ∷ vs) ≡ done st'
      → (old : Candle D) × (get_safe_candle st.candles v.market v.resolution ≡ some old)
        × (refresh_all dec (refresh_one dec st v old) vs ≡ done st')
  unfolding refresh_all
  refresh_all-cons st st' v vs e =
      elim (Option-cases (get_safe_candle st.candles v.market v.resolution)) [
        | inl missing ↦ absurd (panic-ne-done (rw (missing, refresh_all) at e))
        | inr (old, found) ↦ (old, found, rw (found, refresh_all) at e)
      ]

  -- What is stored under a key is a candle with the property.
  abbrev pub Holds : (Candle D → Type 0) → CurrentCandles D → String → String → Type 0
  Holds P st m r = (c : Candle D) × (get_safe_candle st.candles m r ≡ some c) × P c

  round-Same :
      (st : CurrentCandles D) (v : Visit) (old : Candle D) (m r : String)
      → Same v m r
      → get_safe_candle (refresh_one dec st v old).candles m r ≡ some (flattened st v old)
  round-Same st v old m r same =
      subst₂
        (λ m r. get_safe_candle (refresh_one dec st v old).candles m r ≡ some (flattened st v old))
        same.0 same.1
        (stored_by_round st v old v.market v.resolution
          ∙ at_keys_self v.market v.resolution (some (flattened st v old)) _)

  round_other :
      (st : CurrentCandles D) (v : Visit) (old : Candle D) (m r : String)
      → (v.market ≢ m) ⊎ (v.resolution ≢ r)
      → get_safe_candle (refresh_one dec st v old).candles m r ≡ get_safe_candle st.candles m r
  round_other st v old m r other =
      stored_by_round st v old m r
      ∙ at_keys-other v.market v.resolution m r (some (flattened st v old)) _ other

  -- A property that flattening keeps is kept by a whole refresh.
  refresh_all-Holds :
      (P : Candle D → Type 0)
      → ((st : CurrentCandles D) (v : Visit) (old : Candle D) → P old → P (flattened st v old))
      → (st st' : CurrentCandles D) (vs : List Visit) (m r : String)
      → refresh_all dec st vs ≡ done st'
      → Holds P st m r
      → Holds P st' m r
  unfolding refresh_all
  refresh_all-Holds P keep st st' [] m r e h = subst (λ s. Holds P s m r) (done-injective e) h
  refresh_all-Holds P keep st st' (v ∷ vs) m r e (c, stored, p) =
      let (old, found, rest) = refresh_all-cons st st' v vs e in
      refresh_all-Holds P keep (refresh_one dec st v old) st' vs m r rest (elim (Same-cases v m r) [
        | inl same ↦ (
          flattened st v old,
          round-Same st v old m r same,
          keep st v old (subst P (found_there st v m r c old stored found same) p),
        )
        | inr other ↦ (c, round_other st v old m r other ∙ stored, p)
      ])

  flattened-IsFlat :
      (price : D) (st : CurrentCandles D) (v : Visit) (old : Candle D)
      → IsFlat price old
      → IsFlat price (flattened st v old)
  flattened-IsFlat price st v old f = record {
    opening = f.closing;
    high = f.closing;
    low = f.closing;
    closing = f.closing;
  }

  flattened-IsFlat_closing :
      (st : CurrentCandles D) (v : Visit) (old old' : Candle D)
      → old' ≡ old
      → IsFlat old.closing (flattened st v old')
  flattened-IsFlat_closing st v old old' e =
      let price = ap (λ c. c.closing) e in
      record { opening = price; high = price; low = price; closing = price }

  -- A refresh leaves every key that it visits with a candle whose open, high, low and close are the
  -- close that was stored there before.
  pub refresh_all-IsFlat :
      (st st' : CurrentCandles D) (vs : List Visit) (m r : String) (old : Candle D)
      → refresh_all dec st vs ≡ done st'
      → get_safe_candle st.candles m r ≡ some old
      → Visits m r vs
      → (c : Candle D) × (get_safe_candle st'.candles m r ≡ some c) × IsFlat old.closing c
  refresh_all-IsFlat st st' [] m r old e stored i = absurd i
  refresh_all-IsFlat st st' (v ∷ vs) m r old e stored i =
      let (old', found, rest) = refresh_all-cons st st' v vs e in
      elim (Same-cases v m r) [
        | inl same ↦
            refresh_all-Holds (IsFlat old.closing) (flattened-IsFlat old.closing)
              (refresh_one dec st v old') st' vs m r rest
              (
                flattened st v old',
                round-Same st v old' m r same,
                flattened-IsFlat_closing st v old old'
                    (sym (found_there st v m r old old' stored found same)),
              )
        | inr other ↦
            refresh_all-IsFlat (refresh_one dec st v old') st' vs m r old rest
              (round_other st v old' m r other ∙ stored) (later_visit v vs m r other i)
      ]

  -- A refresh does not touch a key that it does not visit.
  pub refresh_all-other :
      (st st' : CurrentCandles D) (vs : List Visit) (m r : String)
      → refresh_all dec st vs ≡ done st'
      → ¬ Visits m r vs
      → get_safe_candle st'.candles m r ≡ get_safe_candle st.candles m r
  unfolding refresh_all
  refresh_all-other st st' [] m r e out =
      ap (λ s. get_safe_candle s.candles m r) (sym (done-injective e))
  refresh_all-other st st' (v ∷ vs) m r e out =
      let (old, found, rest) = refresh_all-cons st st' v vs e in
      refresh_all-other (refresh_one dec st v old) st' vs m r rest (λ i. out (inr i))
      ∙ round_other st v old m r
          (elim (Same-cases v m r) [ inl same ↦ absurd (out (inl same)) | inr other ↦ other ])

  -- Every key that the rounds visit holds a candle.
  abbrev pub Stored : CurrentCandles D → List Visit → Type 0
  Stored st =
      All (λ v. (c : Candle D) × (get_safe_candle st.candles v.market v.resolution ≡ some c))

  refresh_one-Stored :
      (st : CurrentCandles D) (v : Visit) (old : Candle D) (ws : List Visit)
      → Stored st ws
      → Stored (refresh_one dec st v old) ws
  refresh_one-Stored st v old [] h = tt
  refresh_one-Stored st v old (w ∷ ws) h = (
    elim (Same-cases v w.market w.resolution) [
      | inl same ↦ (flattened st v old, round-Same st v old w.market w.resolution same)
      | inr other ↦ (h.0.0, round_other st v old w.market w.resolution other ∙ h.0.1)
    ],
    refresh_one-Stored st v old ws h.1,
  )

  -- A refresh of keys that all hold a candle meets no nil pointer.
  pub refresh_all-total :
      (st : CurrentCandles D) (vs : List Visit)
      → Stored st vs
      → (st' : CurrentCandles D) × (refresh_all dec st vs ≡ done st')
  unfolding refresh_all
  refresh_all-total st [] h = (st, refl)
  refresh_all-total st (v ∷ vs) h =
      rw (h.0.1, refresh_all)
        (refresh_all-total (refresh_one dec st v h.0.0) vs (refresh_one-Stored st v h.0.0 vs h.1))

  -- A candle that is still running at the time of the refresh keeps its times and its volume, and
  -- loses its open, its high and its low.
  pub refresh_one-running :
      (st : CurrentCandles D) (v : Visit) (old : Candle D)
      → get_safe_candle st.candles v.market v.resolution ≡ some old
      → contains_ts old (unix_nano v.now) ≡ true
      → get_safe_candle (refresh_one dec st v old).candles v.market v.resolution
        ≡ some (record old {
          opening = old.closing;
          high = old.closing;
          low = old.closing;
          closing = old.closing;
        })
  unfolding get_fresh_candle
  refresh_one-running st v old found running =
      round-Same st v old v.market v.resolution (refl, refl)
      ∙ rw (found, get_fresh_candle) (rw running)
