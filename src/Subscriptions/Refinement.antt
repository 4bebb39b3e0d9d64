-- ===== src/Subscriptions/Refinement.antt =====
-- The stream of SubscribeDeals refines the lossy queue.
use mathlib.Core.Bool.{false≢true}
use mathlib.Core.List.{map-append}
use mathlib.Core.Option
use ohlcv.Base.{
  ◌≤◌, ◌<◌, ◌≡◌, refl, sym, ap, ◌∙◌, ◌⊎◌, inl, inr, true, false, String, List, [], ◌∷◌, ◌++◌, map,
  Option, none, some, Assoc, lookup, insert, lookup-insert, lookup-remove, length, eq_iff, arith,
  ok, Bool-cases, some-injective, ok-injective, eq_refl, remove, subst,
}
use ohlcv.Decimal.{Decimals}
use ohlcv.Deals.{StoredDeal}
use ohlcv.Consumers.{Channel, offer, subscribe, un_subscribe, consume_one}
use ohlcv.Consumers.Delivery.{lookup-consume_one}
use ohlcv.Subscriptions.{
  Stream, response, subscribe_deals, new_channel, finish, deliver, with_subscribers, Step, consumed,
  delivered, finished, joined, left, Reach, start, next,
}
use ohlcv.Subscriptions.Spec.{
  Queue, bound, fresh_queue, Moves, accept, lose, ignore, pass, stop, idle, Reaches, fresh, moved,
  IsPart, Reaches-IsLossy,
}

module _ {D S : Type 0} (dec : Decimals D S) (id : String) where
  -- The channel that a live queue stands for.
  abbrev pub channel_of : Queue (StoredDeal D) → Channel (StoredDeal D)
  channel_of q = record { capacity = bound; buffer = q.waiting }

  -- The stream is that of the queue: it has sent what has passed, and its channel holds what waits.
  pub record Shows (s : Stream D) (q : Queue (StoredDeal D)) : Type 0 where
    pub sent : s.sent ≡ map (response dec) q.passed
    pub running : s.is_running ≡ q.is_live
    pub subscribed : q.is_live ≡ true → lookup id s.subscribers ≡ some (channel_of q)
    pub unsubscribed : q.is_live ≡ false → lookup id s.subscribers ≡ none

  -- What a step comes to.
  abbrev Simulated : Queue (StoredDeal D) → List (StoredDeal D) → Stream D → Type 0
  Simulated q label s' = (q' : Queue (StoredDeal D)) × Moves q label q' × Shows s' q'

  at_consumed :
      (d : StoredDeal D) (subscribers : Assoc (Channel (StoredDeal D)))
      (o : Option (Channel (StoredDeal D)))
      → lookup id subscribers ≡ o
      → lookup id (consume_one d subscribers) ≡ Option.map (offer d) o
  at_consumed d subscribers o e = lookup-consume_one d id subscribers ∙ ap (Option.map (offer d)) e

  offer-channel_of :
      (d : StoredDeal D) (q : Queue (StoredDeal D))
      → ((length q.waiting < bound)
          × (offer d (channel_of q) ≡ channel_of (record q { waiting = q.waiting ++ d ∷ [] })))
        ⊎ ((bound ≤ length q.waiting) × (offer d (channel_of q) ≡ channel_of q))
  unfolding offer
  offer-channel_of d q = ground arith

  consumed-Simulated :
      (d : StoredDeal D) (s : Stream D) (q : Queue (StoredDeal D))
      → Shows s q
      → Simulated q (d ∷ []) (with_subscribers s (consume_one d s.subscribers))
  consumed-Simulated d s q h = elim (Bool-cases q.is_live) [
    | inl live ↦
        let there = at_consumed d s.subscribers (some (channel_of q)) (h.subscribed live) in
        elim (offer-channel_of d q) [
          | inl (room, e) ↦ (
            record q { waiting = q.waiting ++ d ∷ [] },
            accept d live room,
            record {
              sent = h.sent;
              running = h.running;
              subscribed = λ l. there ∙ ap some e;
              unsubscribed = λ l. absurd (false≢true (sym l ∙ live));
            },
          )
          | inr (full, e) ↦ (
            q,
            lose d live full,
            record {
              sent = h.sent;
              running = h.running;
              subscribed = λ l. there ∙ ap some e;
              unsubscribed = λ l. absurd (false≢true (sym l ∙ live));
            },
          )
        ]
    | inr dead ↦ (
      q,
      ignore d dead,
      record {
        sent = h.sent;
        running = h.running;
        subscribed = λ l. absurd (false≢true (sym dead ∙ l));
        unsubscribed = λ l. at_consumed d s.subscribers none (h.unsubscribed dead);
      },
    )
  ]

  with_buffer : List (StoredDeal D) → Channel (StoredDeal D) → Option (Channel (StoredDeal D))
  with_buffer rest ch = some (record ch { buffer = rest })

  delivered-Simulated :
      (ch : Channel (StoredDeal D)) (d : StoredDeal D) (rest : List (StoredDeal D)) (s : Stream D)
      (q : Queue (StoredDeal D))
      → Shows s q
      → s.is_running ≡ true
      → lookup id s.subscribers ≡ some ch
      → ch.buffer ≡ d ∷ rest
      → Simulated q [] (deliver dec id ch d rest s)
  unfolding deliver with_buffer
  delivered-Simulated ch d rest s q h run found front =
      let live : q.is_live ≡ true = sym h.running ∙ run in
      let same : channel_of q ≡ ch = some-injective (sym (h.subscribed live) ∙ found) in
      (
        record q { passed = q.passed ++ d ∷ []; waiting = rest },
        pass d rest live (ap (λ c. c.buffer) same ∙ front),
        record {
          sent =
              ap (λ l. l ++ response dec d ∷ []) h.sent
              ∙ sym (map-append (response dec) q.passed (d ∷ []));
          running = h.running;
          subscribed = λ l.
              rw (lookup-insert id id (record ch { buffer = rest }) s.subscribers, eq_refl id)
                (ap (with_buffer rest) (sym same));
          unsubscribed = λ l. absurd (false≢true (sym l ∙ live));
        },
      )

  finished-Simulated :
      (s : Stream D) (q : Queue (StoredDeal D))
      → Shows s q
      → s.is_running ≡ true
      → Simulated q [] (finish id s)
  unfolding finish un_subscribe
  finished-Simulated s q h run = (
    record q { waiting = []; is_live = false },
    stop (sym h.running ∙ run),
    record {
      sent = h.sent;
      running = refl;
      subscribed = λ l. absurd (false≢true l);
      unsubscribed = λ l. rw (lookup-remove id id s.subscribers, eq_refl id) refl;
    },
  )

  -- What happens under other keys is not seen.
  other-Simulated :
      (s : Stream D) (subscribers : Assoc (Channel (StoredDeal D))) (q : Queue (StoredDeal D))
      → Shows s q
      → lookup id subscribers ≡ lookup id s.subscribers
      → Simulated q [] (with_subscribers s subscribers)
  other-Simulated s subscribers q h e = (
    q,
    idle,
    record {
      sent = h.sent;
      running = h.running;
      subscribed = λ l. e ∙ h.subscribed l;
      unsubscribed = λ l. e ∙ h.unsubscribed l;
    },
  )

  -- Each step of the stream is a step of the queue, given the same deals.
  pub Step-Simulated :
      {s s' : Stream D} {label : List (StoredDeal D)} (q : Queue (StoredDeal D))
      → Shows s q
      → Step dec id s label s'
      → (q' : Queue (StoredDeal D)) × Moves q label q' × Shows s' q'
  unfolding subscribe un_subscribe
  Step-Simulated {s} q h (consumed d) = consumed-Simulated d s q h
  Step-Simulated {s} q h (delivered ch d rest run found front) =
      delivered-Simulated ch d rest s q h run found front
  Step-Simulated {s} q h (finished run) = finished-Simulated s q h run
  Step-Simulated {s} q h (joined other ch ne) =
      other-Simulated s (insert other ch s.subscribers) q h
        (ground (arith, lookup-insert other id ch s.subscribers, eq_iff other id))
  Step-Simulated {s} q h (left other ne) =
      other-Simulated s (remove other s.subscribers) q h
        (ground (arith, lookup-remove other id s.subscribers, eq_iff other id))

  started-Shows :
      (subscribers : Assoc (Channel (StoredDeal D))) (s : Stream D)
      → subscribe_deals (ok id) subscribers ≡ ok s
      → Shows s fresh_queue
  unfolding subscribe_deals subscribe new_channel
  started-Shows subscribers s e =
      let same = ok-injective e in
      subst (λ x. Shows x fresh_queue) same
        (record {
          sent = refl;
          running = refl;
          subscribed = λ l. rw (lookup-insert id id new_channel subscribers, eq_refl id) refl;
          unsubscribed = λ l. absurd (false≢true (sym l));
        })

  -- Whatever the consumer, the client and the other subscribers do, a stream that SubscribeDeals has
  -- begun shows a lossy queue of 1024 places that has been given the same deals in the same order.
  pub Reach-Reaches :
      (ds : List (StoredDeal D)) (s : Stream D)
      → Reach dec id ds s
      → (q : Queue (StoredDeal D)) × Reaches ds q × Shows s q
  Reach-Reaches _ s (start subscribers _ e) = (fresh_queue, fresh, started-Shows subscribers s e)
  Reach-Reaches _ s (next {ds} {label} {s = s₀} r st) =
      let (q, given, shows) = Reach-Reaches ds s₀ r in
      let (q', m, shows') = Step-Simulated q shows st in (q', moved given m, shows')

  -- What the client is sent is the responses to some of the deals that have been consumed since it
  -- subscribed, in their order and each once; while the call runs and at most 1024 have been
  -- consumed, every deal has been sent or waits to be.
  pub Reach-IsLossy :
      (ds : List (StoredDeal D)) (s : Stream D)
      → Reach dec id ds s
      → (passed : List (StoredDeal D)) × (waiting : List (StoredDeal D)) × (s.sent
          ≡ map (response dec) passed)
        × IsPart (passed ++ waiting) ds
        × (s.is_running ≡ true
            → (lookup id s.subscribers ≡ some (record { capacity = 1024; buffer = waiting }))
              × (length ds ≤ 1024 → passed ++ waiting ≡ ds))
  Reach-IsLossy ds s r =
      let (q, given, shows) = Reach-Reaches ds s r in
      let lossy = Reaches-IsLossy ds given in
      (
        q.passed,
        q.waiting,
        shows.sent,
        lossy.part,
        λ run.
            let live : q.is_live ≡ true = sym shows.running ∙ run in
            (shows.subscribed live, λ few. lossy.complete live few),
      )
