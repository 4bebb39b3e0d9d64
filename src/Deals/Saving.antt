-- ===== src/Deals/Saving.antt =====
-- Which deals are valid, and what SaveDeal does to the collection and the channel.
use mathlib.Core.Path.{subst}
use ohlcv.Base.{
  done-injective, then_run-done, ◌≤◌, ◌<◌, ◌≡◌, ◌≢◌, refl, sym, ap, ◌↔◌, ◌⊎◌, inl, inr, false, ◌||◌,
  String, [], ◌∷◌, ◌++◌, Option, none, some, pos, eqb_ℤ_iff, length, str_eq, eq_iff, Assoc, Result,
  ok, done, arith, Bool-cases, Result-cases,
}
use ohlcv.Decimal.{Decimals}
use ohlcv.Current.{Deal}
use ohlcv.Text.{codes}
use ohlcv.Deals.Pattern.{HasPair, market_matches_iff}
use ohlcv.Deals.{
  StoredDeal, Store, channel_capacity, validate, is_illegal, send, save_valid, stored_deal,
  save_deal, must_parse_decimal,
}

module _ {D S : Type 0} (dec : Decimals D S) where
  -- Not zero, not NaN and not +Inf; a negative number or -Inf is none of these.
  abbrev pub IsLegal : D → Type 0
  IsLegal d = (dec.is_zero d ≡ false) × (dec.is_nan d ≡ false) × (dec.is_inf d ≢ pos 1)

  is_illegal_iff : (d : D) → (is_illegal dec d ≡ false) ↔ IsLegal d
  unfolding is_illegal
  is_illegal_iff d = ground (arith, eqb_ℤ_iff (dec.is_inf d) (pos 1))

  -- Validate accepts a deal exactly when it has an identifier, a price and a volume that are not
  -- zero, not NaN and not +Inf, and a market in which two codes of three or four capital letters
  -- stand somewhere with "_" between them.
  pub validate-ok_iff :
      (d : StoredDeal D)
      → (validate dec d ≡ ok tt) ↔ (
          (d.deal_data.deal_id ≢ "")
          × IsLegal d.deal_data.price
          × IsLegal d.deal_data.volume
          × HasPair (codes d.deal_data.market))
  unfolding validate
  validate-ok_iff d = ground (
    arith,
    eq_iff d.deal_data.deal_id "",
    is_illegal_iff d.deal_data.price,
    is_illegal_iff d.deal_data.volume,
    market_matches_iff d.deal_data.market,
  )

module _ {D S : Type 0} (dec : Decimals D S) (insert_one : StoredDeal D → Result (Unit {0})) where
  -- A valid deal that has been stored is at the end of the collection, and at the end of the channel
  -- unless that was full.
  pub record IsSaved (st st' : Store D) (d : StoredDeal D) : Type 0 where
    pub is_valid : validate dec d ≡ ok tt
    pub inserted : insert_one d ≡ ok tt
    pub collection : st'.collection ≡ st.collection ++ d ∷ []
    pub channel :
        ((length st.channel < channel_capacity) × (st'.channel ≡ st.channel ++ d ∷ []))
        ⊎ ((channel_capacity ≤ length st.channel) × (st'.channel ≡ st.channel))

  -- A round ended with the deal saved, or with nothing changed.
  abbrev pub Ended : Store D → Store D → Result (Option (StoredDeal D)) → Type 0
  Ended st st' r = ((d : StoredDeal D) × (r ≡ ok (some d)) × IsSaved st st' d) ⊎ (st' ≡ st)

  channel_after :
      (st : Store D) (d : StoredDeal D)
      → ((length st.channel < channel_capacity) × ((send st d).channel ≡ st.channel ++ d ∷ []))
        ⊎ ((channel_capacity ≤ length st.channel) × ((send st d).channel ≡ st.channel))
  unfolding send
  channel_after st d = ground arith

  collection_after : (st : Store D) (d : StoredDeal D) → (send st d).collection ≡ st.collection
  unfolding send
  collection_after st d = ground arith

  save_valid-Ended :
      (st : Store D) (d : StoredDeal D)
      → Ended st (save_valid dec insert_one st d).1 (save_valid dec insert_one st d).0
  unfolding save_valid
  save_valid-Ended st d = elim (Result-cases (validate dec d)) [
    | inl (x, invalid) ↦ rw (invalid, save_valid) (inr refl)
    | inr (u, valid) ↦ elim (Result-cases (insert_one d)) [
      | inl (x, fails) ↦ rw (valid, fails, save_valid) (inr refl)
      | inr (w, inserted) ↦
          rw (valid, inserted, save_valid)
            (inl (
              d,
              refl,
              record {
                is_valid = valid;
                inserted = inserted;
                collection =
                    collection_after (record st { collection = st.collection ++ d ∷ [] }) d;
                channel = channel_after (record st { collection = st.collection ++ d ∷ [] }) d;
              },
            ))
    ]
  ]

  -- Only the deal that SaveDeal answers is stored and sent, and it is valid; when SaveDeal skips a
  -- message or answers an error, nothing changes.
  pub save_deal-Ended :
      (names : Assoc String) (st st' : Store D) (m : Deal) (r : Result (Option (StoredDeal D)))
      → save_deal dec insert_one names st m ≡ done (r, st')
      → Ended st st' r
  unfolding save_deal
  save_deal-Ended names st st' m r e =
      elim (Bool-cases (str_eq m.taker_order_id "" || str_eq m.maker_order_id "")) [
        | inl skipped ↦ inr (sym (ap (λ x. x.1) (done-injective (rw (skipped, save_deal) at e))))
        | inr taken ↦
            let (price, _, e1) =
              then_run-done (must_parse_decimal dec m.price) _ (r, st')
                (rw (taken, save_deal) at e) in
            let (volume, _, e2) = then_run-done (must_parse_decimal dec m.amount) _ (r, st') e1 in
            let same = done-injective e2 in
            subst (λ x. Ended st x.1 x.0) same
              (save_valid-Ended st (stored_deal names m price volume))
      ]

  -- Where the price and the amount can be parsed, SaveDeal does not panic.
  pub save_deal-total :
      (names : Assoc String) (st : Store D) (m : Deal) (price amount : D)
      → dec.parse_decimal128 m.price ≡ ok price
      → dec.parse_decimal128 m.amount ≡ ok amount
      → (x : Result (Option (StoredDeal D)) × Store D) × (save_deal dec insert_one names st m
          ≡ done x)
  unfolding save_deal must_parse_decimal
  save_deal-total names st m price amount e f =
      elim (Bool-cases (str_eq m.taker_order_id "" || str_eq m.maker_order_id "")) [
        | inl skipped ↦ ((ok none, st), rw (skipped, save_deal) refl)
        | inr taken ↦ (
          save_valid dec insert_one st (stored_deal names m price amount),
          rw (taken, e, f, save_deal, must_parse_decimal) refl,
        )
      ]
