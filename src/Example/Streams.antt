-- ===== src/Example/Streams.antt =====
-- The theorems on subscriptions, messages of deals and cached tickers, applied to the examples.
use mathlib.Core.Bool.{false≢true}
use ohlcv.Base.{
  ◌≤◌, ◌≡◌, ◌≢◌, refl, ◌⊎◌, true, String, List, [], ◌∷◌, ◌++◌, map, some, lookup, length, Result,
  ok, err, done, eq_iff, arith, insert,
}
use Prim.Native.String.{◌++◌ as text_append}
use ohlcv.Current.{Deal}
use ohlcv.Deals.{StoredDeal}
use ohlcv.Consumers.{Channel, TickerStatistics, Ticker, get, subscribe, consume_one}
use ohlcv.Consumers.Fresh.{IsFresh}
use ohlcv.Subscriptions.{
  Stream, Reach, start, next, consumed, delivered, subscribe_deals, deliver, response,
  with_subscribers,
}
use ohlcv.Subscriptions.Spec.{Queue, Reaches, IsPart}
use ohlcv.Subscriptions.Refinement.{Shows, Reach-Reaches, Reach-IsLossy}
use ohlcv.Consuming.{Process, handle_message, load_cache, load_all}
use ohlcv.Consuming.Loading.{latest}
use ohlcv.Consuming.Messages.{IsHandled, HasNumbers, handle_message-IsHandled}
use ohlcv.Server.{get_ticker, ticker_message}
use ohlcv.Server.Answers.{found_list, get_ticker-load_cache}
use ohlcv.Example.{tally, deal_at, no_candles, minute_visit}
use ohlcv.Example.Wiring.{names, accepts, no_deals, bare_deal}
use ohlcv.Example.Messages.{quiet, cached}

-- A subscription that has been sent one of two deals.
abbrev begun : Stream String
begun = record {
  subscribers = ("a", record { capacity = 1024; buffer = [] }) ∷ [];
  sent = [];
  is_running = true;
}

begun_there : subscribe_deals (ok "a") [] ≡ ok begun
unfolding subscribe_deals subscribe insert
begun_there = refl

abbrev offered : Stream String
offered = with_subscribers begun (consume_one bare_deal begun.subscribers)

abbrev one_waits : Channel (StoredDeal String)
one_waits = record { capacity = 1024; buffer = bare_deal ∷ [] }

offered_there : lookup "a" offered.subscribers ≡ some one_waits
unfolding consume_one lookup
offered_there = refl

abbrev served : Stream String
served = deliver tally "a" one_waits bare_deal [] offered

served_reached : Reach tally "a" (bare_deal ∷ []) served
served_reached =
    next (next (start [] begun begun_there) (consumed bare_deal))
      (delivered one_waits bare_deal [] refl offered_there refl)

Reach-Reaches_example :
    (q : Queue (StoredDeal String)) × Reaches (bare_deal ∷ []) q × Shows tally "a" served q
Reach-Reaches_example = Reach-Reaches tally "a" (bare_deal ∷ []) served served_reached

Reach-IsLossy_example :
    (passed : List (StoredDeal String)) × (waiting : List (StoredDeal String)) × (served.sent
      ≡ map (response tally) passed)
    × IsPart (passed ++ waiting) (bare_deal ∷ [])
    × (served.is_running ≡ true
        → (lookup "a" served.subscribers ≡ some (record { capacity = 1024; buffer = waiting }))
          × (length (bare_deal ∷ []) ≤ 1024 → passed ++ waiting ≡ bare_deal ∷ []))
Reach-IsLossy_example = Reach-IsLossy tally "a" (bare_deal ∷ []) served served_reached

-- Messages that are deals already.
abbrev decode : Deal → Result Deal
decode deal = ok deal

abbrev at_noon : Process String
at_noon = record { candles = no_candles; tickers = cached; store = no_deals }

numbered : (deal : Deal) → decode (deal_at "|||") ≡ ok deal → HasNumbers tally accepts deal
numbered deal e = (deal.price, deal.amount, refl, refl)

handle_message-IsHandled_example :
    (r : Result (Unit {0})) × (p' : Process String) × (handle_message tally accepts decode names
        at_noon
        (deal_at "|||")
        (minute_visit ∷ [])
      ≡ done (r, p'))
    × (((e : String) × (decode (deal_at "|||") ≡ err e)
          × (p' ≡ at_noon)
          × (r ≡ err (text_append "unmarshal error with protobuf deals msg: " e)))
        ⊎ ((deal : Deal) × (decode (deal_at "|||") ≡ ok deal)
            × IsHandled tally accepts names deal (minute_visit ∷ []) at_noon p' r))
handle_message-IsHandled_example =
    handle_message-IsHandled tally accepts decode names at_noon (deal_at "|||") (minute_visit ∷ [])
      numbered

abbrev loaded_ticker : TickerStatistics
loaded_ticker = record quiet { symbol = "BTC_USDT"; last_price = "||" }

cached-IsFresh : IsFresh cached
unfolding lookup
cached-IsFresh key a e = ground arith

abbrev reloaded : Ticker
reloaded = load_all (loaded_ticker ∷ []) cached

reloaded_there : load_cache (done (ok (loaded_ticker ∷ []))) cached ≡ done reloaded
unfolding load_cache
reloaded_there = refl

named : ◌≢◌ {A = String} "BTC_USDT" ""
named e = false≢true ((eq_iff "BTC_USDT" "").1 e)

get_ticker-load_cache_example :
    get_ticker ("BTC_USDT" ∷ []) "BTC_USDT" reloaded
    ≡ ok (
        map ticker_message
          (found_list (latest "BTC_USDT" (loaded_ticker ∷ []) (get "BTC_USDT" cached))))
get_ticker-load_cache_example =
    get_ticker-load_cache (loaded_ticker ∷ []) cached reloaded ("BTC_USDT" ∷ []) "BTC_USDT"
      cached-IsFresh reloaded_there named
