-- ===== src/Consuming/Messages.antt =====
-- What a message of a deal does to the candles, the tickers and the stored deals.
use Prim.Native.String.{◌++◌ as text_append}
use ohlcv.Base.{
  ◌≡◌, refl, ◌⊎◌, inl, inr, String, List, Option, Assoc, Result, ok, err, done, Result-cases,
}
use ohlcv.Decimal.{Decimals}
use ohlcv.Current.{Deal, Visit, add_deal}
use ohlcv.Deals.{StoredDeal, Store, save_deal}
use ohlcv.Deals.Saving.{Ended, save_deal-Ended, save_deal-total}
use ohlcv.Consumers.{update_with_new_deal}
use ohlcv.Consuming.{Process, handle_deal, handle_message, outcome_of}

module _ {D S : Type 0} (dec : Decimals D S) (insert_one : StoredDeal D → Result (Unit {0})) where
  -- A deal has been handled: the candles and the tickers have taken it, whatever became of saving it,
  -- and the handler's error is that of SaveDeal.
  pub record IsHandled (markets_map : Assoc String) (deal : Deal) (visits : List Visit)
      (p p' : Process D) (r : Result (Unit {0})) : Type 0 where
    pub candles : p'.candles ≡ (add_deal dec p.candles deal visits).0
    pub tickers : p'.tickers ≡ update_with_new_deal deal.market deal p.tickers
    pub saved :
        (s : Result (Option (StoredDeal D))) × (save_deal dec insert_one markets_map p.store deal
          ≡ done (s, p'.store))
        × Ended dec insert_one p.store p'.store s
        × (r ≡ outcome_of s)

  handle_deal-IsHandled :
      (markets_map : Assoc String) (p : Process D) (deal : Deal) (visits : List Visit)
      (x : Result (Option (StoredDeal D)) × Store D)
      → save_deal dec insert_one markets_map p.store deal ≡ done x
      → (r : Result (Unit {0})) × (p' : Process D) × (handle_deal dec insert_one markets_map p deal
            visits
          ≡ done (r, p'))
        × IsHandled markets_map deal visits p p' r
  unfolding handle_deal
  handle_deal-IsHandled markets_map p deal visits x saved = (
    outcome_of x.0,
    record {
      candles = (add_deal dec p.candles deal visits).0;
      tickers = update_with_new_deal deal.market deal p.tickers;
      store = x.1;
    },
    rw saved refl,
    record {
      candles = refl;
      tickers = refl;
      saved =
          (x.0, saved, save_deal-Ended dec insert_one markets_map p.store x.1 deal x.0 saved, refl);
    },
  )

  -- The numbers of a deal can be parsed.
  abbrev pub HasNumbers : Deal → Type 0
  HasNumbers deal =
      (price : D) × (amount : D) × (dec.parse_decimal128 deal.price ≡ ok price)
      × (dec.parse_decimal128 deal.amount ≡ ok amount)

  module _ {Msg : Type 0} (unmarshal : Msg → Result Deal) where
    -- The handler returns for every message whose deal has numbers that can be parsed. A message that
    -- is no deal changes nothing and is an error. The deal of any other has been taken by the running
    -- candles and the tickers, also when it is refused; it is stored only if SaveDeal accepts it, and
    -- the handler's error is that of SaveDeal.
    pub handle_message-IsHandled :
        (markets_map : Assoc String) (p : Process D) (msg : Msg) (visits : List Visit)
        → ((deal : Deal) → unmarshal msg ≡ ok deal → HasNumbers deal)
        → (r : Result (Unit {0})) × (p' : Process D) × (handle_message dec insert_one unmarshal
              markets_map p msg visits
            ≡ done (r, p'))
          × (((e : String) × (unmarshal msg ≡ err e)
                × (p' ≡ p)
                × (r ≡ err (text_append "unmarshal error with protobuf deals msg: " e)))
              ⊎ ((deal : Deal) × (unmarshal msg ≡ ok deal)
                  × IsHandled markets_map deal visits p p' r))
    unfolding handle_message
    handle_message-IsHandled markets_map p msg visits numbers =
        elim (Result-cases (unmarshal msg)) [
          | inl (e, fails) ↦ (
            err (text_append "unmarshal error with protobuf deals msg: " e),
            p,
            rw (fails, handle_message) refl,
            inl (e, fails, refl, refl),
          )
          | inr (deal, decoded) ↦
              let (price, amount, e, f) = numbers deal decoded in
              let (x, saved) =
                save_deal-total dec insert_one markets_map p.store deal price amount e f in
              let (r, p', handled, h) = handle_deal-IsHandled markets_map p deal visits x saved in
              (r, p', rw (decoded, handle_message) handled, inr (deal, decoded, h))
        ]
