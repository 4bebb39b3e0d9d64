-- ===== src/Current/Sending.antt =====
-- What currentCandles sends belongs to the markets and resolutions that have been added.
use mathlib.Core.Path.{subst₃}
use ohlcv.Base.{
  done-injective, none-ne-some, Assoc, ℕ, ◌≡◌, refl, sym, ◌∙◌, ◌⊎◌, inl, inr, Bool, true, false,
  String, List, [], ◌∷◌, Option, none, some, All, All-append, ok, done, Bool-cases, Result-cases,
  subst,
}
use ohlcv.Decimal.{Decimals}
use ohlcv.Candle.{Candle, same_candle, empty_candle}
use ohlcv.Current.Table.{get_safe_candle, get_safe_candle-empty}
use ohlcv.Current.Setting.{get_safe_candle-set_candle, updates-set_candle, sent}
use ohlcv.Current.Deals.{add_deal_to-cases}
use ohlcv.Current.Refresh.{flattened, refresh_all-cons}
use ohlcv.Current.Invariant.{
  IsKeyed, IsValid, IsConsistent, IsKeyed-IsConsistent, at_keys-cases, get_fresh_candle-IsKeyed,
  added-IsKeyed, update_candle-IsKeyed,
}
use ohlcv.Current.{
  CurrentCandles, Deal, Visit, set_candle, add_deal_to, add_deal, refresh_one, refresh_all,
  add_candle,
}

module _ {D S : Type 0} (dec : Decimals D S) (names : Assoc String)
    (Allowed : String → String → Type 0) where
  abbrev pub Belongs : String → String → Candle D → Type 0
  Belongs m r c = IsKeyed names m r c × Allowed m r

  abbrev pub BelongsSomewhere : Candle D → Type 0
  BelongsSomewhere c = (m : String) × (r : String) × Belongs m r c

  -- Every stored candle belongs to its keys, which are allowed, and every candle that has been sent
  -- to some.
  pub record IsBound (st : CurrentCandles D) : Type 0 where
    pub stored :
        (m r : String) (c : Candle D) → get_safe_candle st.candles m r ≡ some c → Belongs m r c
    pub updates : All BelongsSomewhere st.updates

  somewhere-consistent :
      (cs : List (Candle D)) → All BelongsSomewhere cs → All (λ c. IsConsistent c) cs
  somewhere-consistent [] h = tt
  somewhere-consistent (c ∷ cs) h =
      let (m, r, k) = h.0 in (IsKeyed-IsConsistent (k.0), somewhere-consistent cs h.1)

  pub IsBound-IsValid : (st : CurrentCandles D) → IsBound st → IsValid names st
  IsBound-IsValid st b = record {
    stored = λ m r c e. (b.stored m r c e).0;
    sent = somewhere-consistent st.updates b.updates;
  }

  sent-BelongsSomewhere :
      (m r : String) (c : Candle D) (f : Bool) (st : CurrentCandles D) (o : Option (Candle D))
      → ((old : Candle D) → o ≡ some old → BelongsSomewhere old)
      → BelongsSomewhere c
      → All BelongsSomewhere (sent dec st m r c f o)
  sent-BelongsSomewhere m r c f st none h k = (k, tt)
  sent-BelongsSomewhere m r c f st (some old) h k = elim (Bool-cases (same_candle dec.same old c)) [
    | inl same ↦ rw same tt
    | inr differ ↦ elim (Bool-cases f) [
      | inl refresh ↦ rw (differ, refresh) (h old refl, (k, tt))
      | inr other ↦ rw (differ, other) (k, tt)
    ]
  ]

  set_candle-IsBound :
      (st : CurrentCandles D) (m r : String) (c : Candle D) (f : Bool)
      → IsBound st
      → Belongs m r c
      → IsBound (set_candle dec st m r c f)
  set_candle-IsBound st m r c f b k = record {
    stored = λ m' r' c' e.
        elim (at_keys-cases dec names m r m' r' c c' _
          (sym (get_safe_candle-set_candle dec st m r c f m' r') ∙ e)) [
            | inl (em, er, ec) ↦ subst₃ Belongs em er ec k
            | inr old ↦ b.stored m' r' c' old
          ];
    updates = rw (updates-set_candle dec st m r c f) (
        All-append BelongsSomewhere st.updates _ b.updates
          (sent-BelongsSomewhere m r c f st _ (λ old e. (m, r, b.stored m r old e)) (m, r, k)));
  }

  -- A range over the candles of a market visits resolutions that are there.
  abbrev pub IsPresent : CurrentCandles D → String → String → Type 0
  IsPresent st m r = (c : Candle D) × (get_safe_candle st.candles m r ≡ some c)

  -- One operation: AddDeal over stored resolutions of the deal's market, refreshAll, or AddCandle
  -- under allowed keys.
  pub data Step (st : CurrentCandles D) : CurrentCandles D → Type 0 where
    deals :
        (deal : Deal) (vs : List Visit)
        → All (λ w. IsPresent st deal.market w.resolution) vs
        → Step st (add_deal dec st deal vs).0
    refreshes :
        {st' : CurrentCandles D} (vs : List Visit) → refresh_all dec st vs ≡ done st' → Step st st'
    adds :
        (m r : String) (c : Candle D) (now : ℕ)
        → Allowed m r
        → (c ≡ empty_candle dec.empty) ⊎ IsKeyed names m r c
        → Step st (add_candle dec st m r c now)

  pub data Reach : CurrentCandles D → Type 0 where
    start : Reach (record { candles = []; updates = [] })
    next : {st st' : CurrentCandles D} → Reach st → Step st st' → Reach st'

  add_deal_to-IsBound :
      (st mid : CurrentCandles D) (deal : Deal) (w : Visit)
      → Allowed deal.market w.resolution
      → add_deal_to dec st deal w ≡ ok mid
      → IsBound st
      → IsBound mid
  add_deal_to-IsBound st mid deal w allowed first b =
      elim (add_deal_to-cases dec deal st mid w first) [
        | inl (_, same) ↦ subst IsBound same b
        | inr (c, _, new, set) ↦ subst IsBound set (
            set_candle-IsBound st deal.market w.resolution c false b (
              update_candle-IsKeyed dec names deal.market w.resolution _ c deal new (
                  get_fresh_candle-IsKeyed dec names st deal.market w.resolution w.now w.later
                    (IsBound-IsValid st b)),
              allowed,
            ))
      ]

  add_deal-IsBound :
      (st : CurrentCandles D) (deal : Deal) (vs : List Visit)
      → All (λ w. Allowed deal.market w.resolution) vs
      → IsBound st
      → IsBound (add_deal dec st deal vs).0
  unfolding add_deal
  add_deal-IsBound st deal [] h b = b
  add_deal-IsBound st deal (w ∷ ws) h b = elim (Result-cases (add_deal_to dec st deal w)) [
    | inl (x, fails) ↦ rw (fails, add_deal) b
    | inr (mid, first) ↦
        rw (first, add_deal)
          (add_deal-IsBound mid deal ws h.1 (add_deal_to-IsBound st mid deal w h.0 first b))
  ]

  present-allowed :
      (st : CurrentCandles D) (m : String) (vs : List Visit)
      → IsBound st
      → All (λ w. IsPresent st m w.resolution) vs
      → All (λ w. Allowed m w.resolution) vs
  present-allowed st m [] b h = tt
  present-allowed st m (w ∷ ws) b h =
      let (c, found) = h.0 in ((b.stored m w.resolution c found).1, present-allowed st m ws b h.1)

  refresh_one-IsBound :
      (st : CurrentCandles D) (w : Visit) (old : Candle D)
      → get_safe_candle st.candles w.market w.resolution ≡ some old
      → IsBound st
      → IsBound (refresh_one dec st w old)
  unfolding refresh_one
  refresh_one-IsBound st w old found b =
      let k =
        get_fresh_candle-IsKeyed dec names st w.market w.resolution w.now w.later
          (IsBound-IsValid st b) in
      set_candle-IsBound st w.market w.resolution (flattened dec st w old) true b (
        record { symbol = k.symbol; resolution = k.resolution; close_time = k.close_time },
        (b.stored w.market w.resolution old found).1,
      )

  refresh_all-IsBound :
      (st st' : CurrentCandles D) (vs : List Visit)
      → refresh_all dec st vs ≡ done st'
      → IsBound st
      → IsBound st'
  unfolding refresh_all
  refresh_all-IsBound st st' [] e b = subst IsBound (done-injective e) b
  refresh_all-IsBound st st' (w ∷ ws) e b =
      let (old, found, rest) = refresh_all-cons dec st st' w ws e in
      refresh_all-IsBound (refresh_one dec st w old) st' ws rest
        (refresh_one-IsBound st w old found b)

  add_candle-IsBound :
      (st : CurrentCandles D) (m r : String) (c : Candle D) (now : ℕ)
      → Allowed m r
      → (c ≡ empty_candle dec.empty) ⊎ IsKeyed names m r c
      → IsBound st
      → IsBound (add_candle dec st m r c now)
  unfolding add_candle
  add_candle-IsBound st m r c now allowed h b =
      set_candle-IsBound st m r _ false b (added-IsKeyed dec names m r c now h, allowed)

  Step-IsBound : {st st' : CurrentCandles D} → Step st st' → IsBound st → IsBound st'
  Step-IsBound (deals deal vs h) b = add_deal-IsBound _ deal vs (present-allowed _ _ vs b h) b
  Step-IsBound (refreshes vs e) b = refresh_all-IsBound _ _ vs e b
  Step-IsBound (adds m r c now allowed h) b = add_candle-IsBound _ m r c now allowed h b

  -- In every state that the operations reach, what is stored and what has been sent belongs to keys
  -- under which a candle was added.
  pub Reach-IsBound : (st : CurrentCandles D) → Reach st → IsBound st
  Reach-IsBound st start = record {
    stored = λ m r c e. absurd (none-ne-some (sym (get_safe_candle-empty m r) ∙ e));
    updates = tt;
  }
  Reach-IsBound st (next r s) = Step-IsBound s (Reach-IsBound _ r)
