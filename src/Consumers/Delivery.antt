-- ===== src/Consumers/Delivery.antt =====
-- What the subscribers of the fan-out receive.
use mathlib.Core.Option
use ohlcv.Base.{
  ◌≤◌, ◌<◌, ◌≡◌, refl, ◌⊎◌, String, [], ◌∷◌, ◌++◌, none, some, length, str_eq, eq_iff, Assoc,
  lookup, insert, remove, lookup-insert, lookup-remove, arith, if◌then◌else◌,
}
use ohlcv.Consumers.{Channel, offer, subscribe, un_subscribe, consume_one}

module _ {A : Type 0} where
  pub lookup-consume_one :
      (d : A) (key : String) (subscribers : Assoc (Channel A))
      → lookup key (consume_one d subscribers) ≡ Option.map (offer d) (lookup key subscribers)
  unfolding lookup consume_one
  lookup-consume_one d key [] = refl
  lookup-consume_one d key ((k, ch) ∷ rest) = ground (arith, lookup-consume_one d key rest)

  -- The deal is at the end of the buffer, or the buffer was full.
  abbrev pub Receives : A → Channel A → Channel A → Type 0
  Receives d ch ch' =
      ((length ch.buffer < ch.capacity)
        × (ch'.buffer ≡ ch.buffer ++ d ∷ [])
        × (ch'.capacity ≡ ch.capacity))
      ⊎ ((ch.capacity ≤ length ch.buffer) × (ch' ≡ ch))

  offer-Receives : (d : A) (ch : Channel A) → Receives d ch (offer d ch)
  unfolding offer
  offer-Receives d ch = ground arith

  -- Whoever has subscribed under a key receives each deal at the end of its channel, or loses it if
  -- that is full, whatever the other subscribers do.
  pub consume_one-Receives :
      (d : A) (key : String) (ch : Channel A) (subscribers : Assoc (Channel A))
      → (ch' : Channel A) × (lookup key (consume_one d (subscribe key ch subscribers)) ≡ some ch')
        × Receives d ch ch'
  unfolding subscribe
  consume_one-Receives d key ch subscribers = (
    offer d ch,
    ground (
      arith,
      lookup-consume_one d key (insert key ch subscribers),
      lookup-insert key key ch subscribers,
      eq_iff key key,
    ),
    offer-Receives d ch,
  )

  -- After UnSubscribe a key receives nothing, and every other key keeps its channel.
  pub consume_one-un_subscribe :
      (d : A) (key other : String) (subscribers : Assoc (Channel A))
      → lookup other (consume_one d (un_subscribe key subscribers))
        ≡ (if str_eq key other then none else lookup other (consume_one d subscribers))
  unfolding un_subscribe
  consume_one-un_subscribe d key other subscribers = ground (
    arith,
    lookup-consume_one d other (remove key subscribers),
    lookup-consume_one d other subscribers,
    lookup-remove key other subscribers,
  )
