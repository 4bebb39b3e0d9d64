-- ===== src/Current/Invariant.antt =====
-- The invariant of the running candles, and every state that the operations reach.
use mathlib.Core.Path.{subst₃}
use mathlib.Core.Bool.{false≢true}
use ohlcv.Base.{
  done-injective, none-ne-some, Assoc, lookup, ℕ, ◌≡◌, refl, sym, ◌∙◌, ap, ◌⊎◌, inl, inr, Bool,
  true, false, String, List, [], ◌∷◌, Option, none, some, arith, eq_iff, All, All-append, ok, done,
  Bool-cases, Option-cases, Result-cases, subst, if◌then◌else◌,
}
use ohlcv.Decimal.{Decimals}
use ohlcv.Time.{unix_nano}
use ohlcv.Resolution.Duration.{calculate_close_time}
use ohlcv.Candle.{Candle, contains_ts, same_candle, empty_candle}
use ohlcv.Candle.Same.{same_candle_iff}
use ohlcv.Current.Table.{get_safe_candle, get_safe_candle-empty}
use ohlcv.Current.Setting.{get_safe_candle-set_candle, updates-set_candle, at_keys, sent}
use ohlcv.Current.Deals.{add_deal_to-cases}
use ohlcv.Current.Refresh.{flattened, refresh_all-cons}
use ohlcv.Current.Update.{update_candle-Updated}
use ohlcv.Current.{
  CurrentCandles, Deal, Visit, build_fresh_candle, get_fresh_candle, set_candle, update_candle,
  add_deal_to, add_deal, refresh_one, refresh_all, add_candle,
}

-- The candle is called by the market's identifier or by its name, has the resolution, and closes
-- where the resolution says.
pub record IsKeyed {D : Type 0} (names : Assoc String) (m r : String) (c : Candle D) : Type 0 where
  pub symbol : (c.symbol ≡ m) ⊎ (lookup m names ≡ some c.symbol)
  pub resolution : c.resolution ≡ r
  pub close_time : c.close_time ≡ calculate_close_time c.open_time r

-- The candle closes where its own resolution says.
abbrev pub IsConsistent : {D : Type 0} → Candle D → Type 0
IsConsistent c = c.close_time ≡ calculate_close_time c.open_time c.resolution

-- Each stored candle belongs to the keys under which it is stored, and all that has been sent closes
-- where its resolution says.
pub record IsValid {D : Type 0} (names : Assoc String) (st : CurrentCandles D) : Type 0 where
  pub stored :
      (m r : String) (c : Candle D) → get_safe_candle st.candles m r ≡ some c → IsKeyed names m r c
  pub sent : All IsConsistent st.updates

pub IsKeyed-IsConsistent :
    {D : Type 0} {names : Assoc String} {m r : String} {c : Candle D}
    → IsKeyed names m r c
    → IsConsistent c
IsKeyed-IsConsistent {c} k = k.close_time ∙ ap (calculate_close_time c.open_time) (sym k.resolution)

-- `names` is the map from the identifiers of the markets to their names.
module _ {D S : Type 0} (dec : Decimals D S) (names : Assoc String) where
  sent-consistent :
      (m r : String) (c : Candle D) (f : Bool) (st : CurrentCandles D) (o : Option (Candle D))
      → ((old : Candle D) → o ≡ some old → IsConsistent old)
      → IsConsistent c
      → All IsConsistent (sent dec st m r c f o)
  sent-consistent m r c f st none h k = (k, tt)
  sent-consistent m r c f st (some old) h k = elim (Bool-cases (same_candle dec.same old c)) [
    | inl same ↦ rw same tt
    | inr differ ↦ elim (Bool-cases f) [
      | inl refresh ↦ rw (differ, refresh) (h old refl, (k, tt))
      | inr other ↦ rw (differ, other) (k, tt)
    ]
  ]

  pub at_keys-cases :
      (m r m' r' : String) (c c' : Candle D) (o : Option (Candle D))
      → at_keys m r m' r' (some c) o ≡ some c'
      → ((m ≡ m') × (r ≡ r') × (c ≡ c')) ⊎ (o ≡ some c')
  at_keys-cases m r m' r' c c' o e = ground (arith, eq_iff m m', eq_iff r r')

  set_candle-IsValid :
      (st : CurrentCandles D) (m r : String) (c : Candle D) (f : Bool)
      → IsValid names st
      → IsKeyed names m r c
      → IsValid names (set_candle dec st m r c f)
  set_candle-IsValid st m r c f v k = record {
    stored = λ m' r' c' e.
        elim (at_keys-cases m r m' r' c c' _
          (sym (get_safe_candle-set_candle dec st m r c f m' r') ∙ e)) [
            | inl (em, er, ec) ↦ subst₃ (IsKeyed names) em er ec k
            | inr old ↦ v.stored m' r' c' old
          ];
    sent = rw (updates-set_candle dec st m r c f) (
        All-append IsConsistent st.updates _ v.sent (
          sent-consistent m r c f st _ (λ old e. IsKeyed-IsConsistent (v.stored m r old e))
            (IsKeyed-IsConsistent k)));
  }

  pub build_fresh_candle-IsKeyed :
      (m r : String) (now : ℕ) → IsKeyed names m r (build_fresh_candle dec m r now)
  unfolding build_fresh_candle
  build_fresh_candle-IsKeyed m r now = record {
    symbol = inl refl;
    resolution = refl;
    close_time = refl;
  }

  pub get_fresh_candle-IsKeyed :
      (st : CurrentCandles D) (m r : String) (now later : ℕ)
      → IsValid names st
      → IsKeyed names m r (get_fresh_candle dec st m r now later)
  unfolding get_fresh_candle
  get_fresh_candle-IsKeyed st m r now later v =
      elim (Option-cases (get_safe_candle st.candles m r)) [
        | inl e ↦ rw (e, get_fresh_candle) (build_fresh_candle-IsKeyed m r later)
        | inr (c, e) ↦
            rw (e, get_fresh_candle)
              (elim (Bool-cases (contains_ts c (unix_nano now))) [
                | inl fresh ↦ rw fresh (v.stored m r c e)
                | inr old ↦ rw old (build_fresh_candle-IsKeyed m r later)
              ])
      ]

  -- An update changes neither the keys of a candle nor its times.
  pub update_candle-IsKeyed :
      (m r : String) (c c' : Candle D) (deal : Deal)
      → update_candle dec c deal ≡ ok c'
      → IsKeyed names m r c
      → IsKeyed names m r c'
  update_candle-IsKeyed m r c c' deal e k =
      let u = update_candle-Updated dec c c' deal e in
      record {
        symbol = subst (λ s. (s ≡ m) ⊎ (lookup m names ≡ some s)) (sym u.symbol) k.symbol;
        resolution = u.resolution ∙ k.resolution;
        close_time =
            u.close_time ∙ k.close_time ∙ ap (λ t. calculate_close_time t r) (sym u.open_time);
      }

  -- One operation, whatever it is given. AddCandle itself does not ask that a candle belongs to its
  -- keys: here it does, or is the empty one, as for the candles of initCurrentCandles.
  pub data Step (st : CurrentCandles D) : CurrentCandles D → Type 0 where
    deals : (deal : Deal) (vs : List Visit) → Step st (add_deal dec st deal vs).0
    refreshes :
        {st' : CurrentCandles D} (vs : List Visit) → refresh_all dec st vs ≡ done st' → Step st st'
    adds :
        (m r : String) (c : Candle D) (now : ℕ)
        → (c ≡ empty_candle dec.empty) ⊎ IsKeyed names m r c
        → Step st (add_candle dec st m r c now)

  pub data Reach : CurrentCandles D → Type 0 where
    start : Reach (record { candles = []; updates = [] })
    next : {st st' : CurrentCandles D} → Reach st → Step st st' → Reach st'

  add_deal-IsValid :
      (st : CurrentCandles D) (deal : Deal) (vs : List Visit)
      → IsValid names st
      → IsValid names (add_deal dec st deal vs).0
  unfolding add_deal
  add_deal-IsValid st deal [] v = v
  add_deal-IsValid st deal (w ∷ ws) v = elim (Result-cases (add_deal_to dec st deal w)) [
    | inl (x, fails) ↦ rw (fails, add_deal) v
    | inr (mid, first) ↦
        rw (first, add_deal) (add_deal-IsValid mid deal ws (round st deal w mid first v))
  ]
    where
      round :
          (st : CurrentCandles D) (deal : Deal) (w : Visit) (mid : CurrentCandles D)
          → add_deal_to dec st deal w ≡ ok mid
          → IsValid names st
          → IsValid names mid
      round st deal w mid first v = elim (add_deal_to-cases dec deal st mid w first) [
        | inl (_, same) ↦ subst (IsValid names) same v
        | inr (c, _, new, set) ↦ subst (IsValid names) set (
            set_candle-IsValid st deal.market w.resolution c false v (
              update_candle-IsKeyed deal.market w.resolution _ c deal new
                (get_fresh_candle-IsKeyed st deal.market w.resolution w.now w.later v)))
      ]

  refresh_one-IsValid :
      (st : CurrentCandles D) (w : Visit) (old : Candle D)
      → IsValid names st
      → IsValid names (refresh_one dec st w old)
  unfolding refresh_one
  refresh_one-IsValid st w old v =
      let k = get_fresh_candle-IsKeyed st w.market w.resolution w.now w.later v in
      set_candle-IsValid st w.market w.resolution (flattened dec st w old) true v
        (record { symbol = k.symbol; resolution = k.resolution; close_time = k.close_time })

  refresh_all-IsValid :
      (st st' : CurrentCandles D) (vs : List Visit)
      → refresh_all dec st vs ≡ done st'
      → IsValid names st
      → IsValid names st'
  unfolding refresh_all
  refresh_all-IsValid st st' [] e v = subst (IsValid names) (done-injective e) v
  refresh_all-IsValid st st' (w ∷ ws) e v =
      let (old, found, rest) = refresh_all-cons dec st st' w ws e in
      refresh_all-IsValid (refresh_one dec st w old) st' ws rest (refresh_one-IsValid st w old v)

  -- The candle that AddCandle stores: a fresh one in place of the empty one.
  pub added-IsKeyed :
      (m r : String) (c : Candle D) (now : ℕ)
      → (c ≡ empty_candle dec.empty) ⊎ IsKeyed names m r c
      → IsKeyed names m r (
          if same_candle dec.same c (empty_candle dec.empty)
          then build_fresh_candle dec m r now
          else c)
  added-IsKeyed m r c now h = elim (Bool-cases (same_candle dec.same c (empty_candle dec.empty))) [
    | inl empty ↦ rw empty (build_fresh_candle-IsKeyed m r now)
    | inr other ↦ rw other (keyed other h)
  ]
    where
      keyed :
          same_candle dec.same c (empty_candle dec.empty) ≡ false
          → (c ≡ empty_candle dec.empty) ⊎ IsKeyed names m r c
          → IsKeyed names m r c
      keyed other (inl e) = absurd (
          false≢true
            (sym other ∙ (same_candle_iff dec.same dec.same_iff c (empty_candle dec.empty)).1 e))
      keyed other (inr k) = k

  add_candle-IsValid :
      (st : CurrentCandles D) (m r : String) (c : Candle D) (now : ℕ)
      → (c ≡ empty_candle dec.empty) ⊎ IsKeyed names m r c
      → IsValid names st
      → IsValid names (add_candle dec st m r c now)
  unfolding add_candle
  add_candle-IsValid st m r c now h v =
      set_candle-IsValid st m r _ false v (added-IsKeyed m r c now h)

  Step-IsValid : {st st' : CurrentCandles D} → Step st st' → IsValid names st → IsValid names st'
  Step-IsValid (deals deal vs) v = add_deal-IsValid _ deal vs v
  Step-IsValid (refreshes vs e) v = refresh_all-IsValid _ _ vs e v
  Step-IsValid (adds m r c now h) v = add_candle-IsValid _ m r c now h v

  -- In every state that the operations reach from the empty map, each stored candle is called by
  -- its market's identifier or name, has the resolution that it is stored under and closes where
  -- that says; every candle that has been sent closes where its own resolution says.
  pub Reach-IsValid : (st : CurrentCandles D) → Reach st → IsValid names st
  Reach-IsValid st start = record {
    stored = λ m r c e. absurd (none-ne-some (sym (get_safe_candle-empty m r) ∙ e));
    sent = tt;
  }
  Reach-IsValid st (next r s) = Step-IsValid s (Reach-IsValid _ r)
