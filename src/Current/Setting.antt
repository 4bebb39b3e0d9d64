-- ===== src/Current/Setting.antt =====
-- What setCandle stores and sends.
use mathlib.Core.List.{append-nil}
use ohlcv.Base.{
  ◌≡◌, ◌≢◌, ◌⊎◌, inl, inr, Bool, ◌&&◌, String, List, [], ◌∷◌, ◌++◌, Option, none, some, arith,
  str_eq, eq_iff, if◌then◌else◌, Bool-cases, Option-cases, ap, eq_refl,
}
use ohlcv.Decimal.{Decimals}
use ohlcv.Candle.{Candle, same_candle}
use ohlcv.Candle.Same.{same_candle_iff}
use ohlcv.Current.Table.{get_safe_candle, get_safe_candle-set}
use ohlcv.Current.{CurrentCandles, set_candle}

-- The candle at a pair of keys after a write to a pair of keys.
abbrev pub at_keys {ℓ} : {A : Type ℓ} → String → String → String → String → A → A → A
at_keys m r m' r' new old = if str_eq m m' && str_eq r r' then new else old

pub at_keys_self {ℓ} : {A : Type ℓ} (m r : String) (new old : A) → at_keys m r m r new old ≡ new
at_keys_self m r new old = simp eq_refl

pub at_keys-other {ℓ} :
    {A : Type ℓ} (m r m' r' : String) (new old : A)
    → (m ≢ m') ⊎ (r ≢ r')
    → at_keys m r m' r' new old ≡ old
at_keys-other m r m' r' new old d = ground (arith, eq_iff m m', eq_iff r r')

module _ {D S : Type 0} (dec : Decimals D S) (cc : CurrentCandles D) (m r : String) (c : Candle D)
    (f : Bool) where
  kept :
      (m' r' : String)
      → get_safe_candle cc.candles m r ≡ some c
      → get_safe_candle cc.candles m' r'
        ≡ at_keys m r m' r' (some c) (get_safe_candle cc.candles m' r')
  kept m' r' e = ground (arith, eq_iff m m', eq_iff r r')

  -- After setCandle the candle is stored under its keys, also where it was there already, and every
  -- other pair of keys holds what it held.
  pub get_safe_candle-set_candle :
      (m' r' : String)
      → get_safe_candle (set_candle dec cc m r c f).candles m' r'
        ≡ at_keys m r m' r' (some c) (get_safe_candle cc.candles m' r')
  unfolding set_candle
  get_safe_candle-set_candle m' r' = elim (Option-cases (get_safe_candle cc.candles m r)) [
    | inl e ↦ rw (e, set_candle) (get_safe_candle-set cc.candles m r m' r' c)
    | inr (old, e) ↦
        rw (e, set_candle)
          (elim (Bool-cases (same_candle dec.same old c)) [
            | inl same ↦
                rw same (
                  kept m' r'
                    (rw e (ap some ((same_candle_iff dec.same dec.same_iff old c).0 same))))
            | inr differ ↦ rw differ (get_safe_candle-set cc.candles m r m' r' c)
          ])
  ]

  -- What setCandle sends: nothing for a candle that is stored already; otherwise the candle, on a
  -- refresh after the one that it replaces.
  abbrev pub sent : Option (Candle D) → List (Candle D)
  sent none = c ∷ []
  sent (some old) = if same_candle dec.same old c then [] else if f then old ∷ c ∷ [] else c ∷ []

  pub updates-set_candle :
      (set_candle dec cc m r c f).updates ≡ cc.updates ++ sent (get_safe_candle cc.candles m r)
  unfolding set_candle
  updates-set_candle = ground (arith, append-nil cc.updates)
