-- ===== src/Consumers/Tickers.antt =====
-- The cache of tickers, and who is subscribed to it.
use ohlcv.Base.{
  remove, lookup-remove, none-ne-some, some-injective, lookup-empty, ℕ, ◌≡◌, ◌≢◌, refl, sym, ◌∙◌,
  ap, inl, inr, String, List, [], ◌∷◌, subst, Option, none, some, ==_iff, eq_iff, Assoc, lookup,
  lookup-insert, arith, Option-cases,
}
use ohlcv.Current.{Deal}
use ohlcv.Consumers.{
  Channel, offer, TickerStatistics, Ticker, write, read, get, set, offer_at, update_with_new_deal,
  updated, consume_deal, begin_market, leave, un_subscribe, Position, at_range, in_loop, returned,
  Session, Step, begun, exhausted, consumed, cancelled, offered, loaded, left,
}

pub read_written :
    (a : ℕ) (v : TickerStatistics) (heap : ℕ → TickerStatistics) (o : Option ℕ)
    → o ≡ some a
    → read o (write a v heap) ≡ some v
unfolding read write
read_written a v heap o e = rw e (ground (arith, ==_iff a a))

-- A deal that is consumed for a market changes the statistics that are cached under the market's
-- name, and puts the same ones under the market of the deal.
pub get-consume_deal :
    (m : String) (deal : Deal) (c : Ticker) (t : TickerStatistics)
    → get m c ≡ some t
    → (get m (consume_deal m deal c) ≡ some (updated t deal))
      × (get deal.market (consume_deal m deal c) ≡ some (updated t deal))
unfolding get read consume_deal lookup updated
get-consume_deal m deal c t e = elim (Option-cases (lookup m c.cache)) [
  | inl missing ↦ absurd (none-ne-some (sym (rw missing) ∙ e))
  | inr (a, found) ↦
      let same : c.heap a ≡ t = some-injective (ap (λ o. read o c.heap) (sym found) ∙ e) in
      rw (found, ← same, consume_deal)
        (
          read_written a (updated (c.heap a) deal) c.heap _
              (ground (arith, lookup-insert deal.market m a c.cache, found)),
          read_written a (updated (c.heap a) deal) c.heap _ (
              ground (
                arith,
                lookup-insert deal.market deal.market a c.cache,
                eq_iff deal.market deal.market,
              )),
        )
]

-- From the start of ConsumeNewDeals, before anyone has subscribed; the range is over the markets, each
-- with its name, in the order that it takes.
pub data Reach (markets : List (String × String)) : Session → Type 0 where
  start :
      (c : Ticker)
      → c.subscribers ≡ []
      → Reach markets (record { position = at_range markets; ticker = c })
  next : {s s' : Session} → Reach markets s → Step s s' → Reach markets s'

abbrev pub first_key : List (String × String) → Option String
first_key [] = none
first_key ((k, m) ∷ rest) = some k

abbrev Silent : String → Ticker → Type 0
Silent other c = lookup other c.subscribers ≡ none

offer_at-other :
    (other key : String) (deal : Deal) (subscribers : Assoc (Channel Deal))
    (o : Option (Channel Deal))
    → lookup key subscribers ≡ o
    → lookup other subscribers ≡ none
    → lookup other (offer_at key deal o subscribers) ≡ none
unfolding offer_at
offer_at-other other key deal subscribers none e h = h
offer_at-other other key deal subscribers (some ch) e h =
    ground (arith, lookup-insert key other (offer deal ch) subscribers, eq_iff key other)

consumed-subscribers :
    (m : String) (deal : Deal) (c : Ticker) → (consume_deal m deal c).subscribers ≡ c.subscribers
unfolding consume_deal
consumed-subscribers m deal c = elim (Option-cases (lookup m c.cache)) [
  | inl missing ↦ rw (missing, consume_deal)
  | inr (a, found) ↦ rw (found, consume_deal)
]

remove-none :
    (key other : String) (subscribers : Assoc (Channel Deal))
    → lookup other subscribers ≡ none
    → lookup other (remove key subscribers) ≡ none
remove-none key other subscribers h = ground (arith, h, lookup-remove key other subscribers)

-- The range has not gone past its first market.
abbrev IsAtFirst : List (String × String) → Position → Type 0
IsAtFirst markets (at_range ms) = ms ≡ markets
IsAtFirst markets (in_loop k m rest) = first_key markets ≡ some k
IsAtFirst markets returned = Unit

begun-Silent :
    (k other : String) (c : Ticker) → k ≢ other → Silent other c → Silent other (begin_market k c)
unfolding begin_market
begun-Silent k other c ne h = ground (
  arith,
  h,
  lookup-insert k other (record { capacity = 1024; buffer = [] }) c.subscribers,
  eq_iff k other,
)

-- One step keeps the range at its first market, and every other market without a subscriber.
Step-first :
    {s s' : Session} (markets : List (String × String)) (other : String)
    → first_key markets ≢ some other
    → Step s s'
    → IsAtFirst markets s.position × Silent other s.ticker
    → IsAtFirst markets s'.position × Silent other s'.ticker
unfolding update_with_new_deal set leave un_subscribe
Step-first {s} markets other ne (begun k m rest e) h =
    let here : (k, m) ∷ rest ≡ markets = subst (IsAtFirst markets) e h.0 in
    let first : first_key markets ≡ some k = ap first_key (sym here) in
    (first, begun-Silent k other s.ticker (λ same. ne (first ∙ ap some same)) h.1)
Step-first markets other ne (exhausted e) h = (tt, h.1)
Step-first {s} markets other ne (consumed k m rest deal e) h = (
  subst (IsAtFirst markets) e h.0,
  ap (lookup other) (consumed-subscribers m deal s.ticker) ∙ h.1,
)
Step-first markets other ne (cancelled k m rest e) h = (tt, h.1)
Step-first markets other ne (offered key deal) h = (h.0, offer_at-other other key deal _ _ refl h.1)
Step-first markets other ne (loaded key value) h = h
Step-first markets other ne (left key) h = (h.0, remove-none key other _ h.1)

Reach-first :
    (markets : List (String × String)) (other : String) (s : Session)
    → first_key markets ≢ some other
    → Reach markets s
    → IsAtFirst markets s.position × Silent other s.ticker
Reach-first markets other s ne (start c e) =
    (refl, ap (lookup other) e ∙ lookup-empty {A = Channel Deal} other)
Reach-first markets other s ne (next r step) =
    Step-first markets other ne step (Reach-first markets other _ ne r)

-- Whatever happens from the start of ConsumeNewDeals on, also after its return, no market but the
-- first of its range gets a subscriber.
pub Reach-subscribers :
    (markets : List (String × String)) (other : String) (s : Session)
    → first_key markets ≢ some other
    → Reach markets s
    → lookup other s.ticker.subscribers ≡ none
Reach-subscribers markets other s ne r = (Reach-first markets other s ne r).1
