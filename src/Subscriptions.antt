-- ===== src/Subscriptions.antt =====
-- SubscribeDeals of internal/server/ohlcv.go, beside the consumer that feeds it: a stream of deals to
-- one client, as a step relation at its select.
pub mod Spec
pub mod Refinement
use ohlcv.Base.{
  ◌≡◌, ◌≢◌, Bool, true, false, String, List, [], ◌∷◌, ◌++◌, Option, some, ℤ, Assoc, lookup, insert,
  Result, ok, err,
}
use ohlcv.Decimal.{Decimals}
use ohlcv.Deals.{StoredDeal}
use ohlcv.Consumers.{Channel, subscribe, un_subscribe, consume_one}

-- SubscribeDealsResponse; its timestamp is that of the deal, in milliseconds.
pub record DealResponse : Type 0 where
  pub time : ℤ
  pub deal_id : String
  pub price : String
  pub volume : String
  pub symbol : String
  pub is_buyer_maker : Bool

unfoldable pub response : {D S : Type 0} → Decimals D S → StoredDeal D → DealResponse
response dec d = record {
  time = d.t;
  deal_id = d.deal_data.deal_id;
  price = dec.to_text d.deal_data.price;
  volume = dec.to_text d.deal_data.volume;
  symbol = d.deal_data.market;
  is_buyer_maker = d.deal_data.is_buyer_maker;
}

-- The subscribers of the consumer, what Send has been called with, and whether the call still runs.
pub record Stream (D : Type 0) : Type 0 where
  pub subscribers : Assoc (Channel (StoredDeal D))
  pub sent : List DealResponse
  pub is_running : Bool

-- `make(chan *model.Deal, 1024)`
unfoldable pub new_channel : {A : Type 0} → Channel A
new_channel = record { capacity = 1024; buffer = [] }

module _ {D : Type 0} where
  -- Up to the loop: with no identifier the call ends at once.
  unfoldable pub subscribe_deals :
      Result String → Assoc (Channel (StoredDeal D)) → Result (Stream D)
  unfolding new_channel
  subscribe_deals (err e) subscribers = err e
  subscribe_deals (ok id) subscribers =
      ok (record {
        subscribers = subscribe id new_channel subscribers;
        sent = [];
        is_running = true;
      })

  -- The end of the context, with the deferred UnSubscribe.
  unfoldable pub finish : String → Stream D → Stream D
  finish id s = record s { subscribers = un_subscribe id s.subscribers; is_running = false }

  -- What the other goroutines do to the subscribers.
  abbrev pub with_subscribers : Stream D → Assoc (Channel (StoredDeal D)) → Stream D
  with_subscribers s subscribers = record s { subscribers = subscribers }

module _ {D S : Type 0} (dec : Decimals D S) where
  -- The receive from the channel and the Send, whose error is only logged.
  unfoldable pub deliver :
      String → Channel (StoredDeal D) → StoredDeal D → List (StoredDeal D) → Stream D → Stream D
  unfolding response
  deliver id ch d rest s = record s {
    subscribers = insert id (record ch { buffer = rest }) s.subscribers;
    sent = s.sent ++ response dec d ∷ [];
  }

  -- A step, with the deal that the consumer receives in it, if it is one of the consumer.
  pub data Step (id : String) (s : Stream D) : List (StoredDeal D) → Stream D → Type 0 where
    consumed :
        (d : StoredDeal D) → Step id s (d ∷ []) (with_subscribers s (consume_one d s.subscribers))
    delivered :
        (ch : Channel (StoredDeal D)) (d : StoredDeal D) (rest : List (StoredDeal D))
        → s.is_running ≡ true
        → lookup id s.subscribers ≡ some ch
        → ch.buffer ≡ d ∷ rest
        → Step id s [] (deliver id ch d rest s)
    finished : s.is_running ≡ true → Step id s [] (finish id s)
    joined :
        (other : String) (ch : Channel (StoredDeal D))
        → other ≢ id
        → Step id s [] (with_subscribers s (subscribe other ch s.subscribers))
    left :
        (other : String)
        → other ≢ id
        → Step id s [] (with_subscribers s (un_subscribe other s.subscribers))

  -- The states that a call with the identifier reaches, with the deals consumed since it began.
  pub data Reach (id : String) : List (StoredDeal D) → Stream D → Type 0 where
    start :
        (subscribers : Assoc (Channel (StoredDeal D))) (s : Stream D)
        → subscribe_deals (ok id) subscribers ≡ ok s
        → Reach id [] s
    next :
        {ds label : List (StoredDeal D)} {s s' : Stream D}
        → Reach id ds s
        → Step id s label s'
        → Reach id (ds ++ label) s'
