-- ===== src/Example/Messages.antt =====
-- The theorems on subscribers, applied to the examples.
use ohlcv.Base.{
  if◌then◌else◌, str_eq, pos, ℕ, ◌≡◌, ◌≢◌, refl, String, List, some-injective, [], ◌∷◌, none, some,
  eq_iff, lookup,
}
use mathlib.Core.Bool.{false≢true}
use ohlcv.Consumers.{
  TickerStatistics, Ticker, get, update_with_new_deal, consume_deal, begin_market, Session, in_loop,
  begun, offered, consumed,
}
use ohlcv.Consumers.Tickers.{Reach, start, next, first_key, Reach-subscribers}
use ohlcv.Events.Meta.{Payload, Event, Metas, get_meta, with_meta_kv, get_meta-with_meta_kv}
use ohlcv.Example.{deal_at}

abbrev pub quiet : TickerStatistics
quiet = record {
  symbol = "|";
  price_change = "|";
  price_change_percent = "|";
  weighted_avg_price = "|";
  prev_close_price = "|";
  last_price = "|";
  last_qty = "|";
  bid_price = "|";
  bid_qty = "|";
  ask_price = "|";
  ask_qty = "|";
  open_price = "|";
  high_price = "|";
  low_price = "|";
  volume = "|";
  quote_volume = "|";
  open_time = pos 0;
  close_time = pos 0;
  first_id = "|";
  last_id = "|";
  count = pos 0;
}

abbrev pub cached : Ticker
cached = record {
  cache = ("BTC_USDT", 0) ∷ [];
  heap = λ a. quiet;
  next_address = 1;
  subscribers = [];
}

cached_there : get "BTC_USDT" cached ≡ some quiet
unfolding get lookup
cached_there = refl

-- A deal for the first of two markets is offered and consumed.
abbrev two_markets : List (String × String)
two_markets = ("BTC/USDT", "BTC_USDT") ∷ ("ETH/USDT", "ETH_USDT") ∷ []

abbrev offered_to : Ticker
offered_to = update_with_new_deal "BTC/USDT" (deal_at "|||") (begin_market "BTC/USDT" cached)

abbrev later : Session
later = record {
  position = in_loop "BTC/USDT" "BTC_USDT" (("ETH/USDT", "ETH_USDT") ∷ []);
  ticker = consume_deal "BTC_USDT" (deal_at "|||") offered_to;
}

later_reached : Reach two_markets later
later_reached =
    next
      (next
        (next (start cached refl)
          (begun "BTC/USDT" "BTC_USDT" (("ETH/USDT", "ETH_USDT") ∷ []) refl))
        (offered "BTC/USDT" (deal_at "|||")))
      (consumed "BTC/USDT" "BTC_USDT" (("ETH/USDT", "ETH_USDT") ∷ []) (deal_at "|||") refl)

other_market : first_key two_markets ≢ some "ETH/USDT"
other_market e = false≢true ((eq_iff "BTC/USDT" "ETH/USDT").1 (some-injective e))

Reach-subscribers_example : lookup "ETH/USDT" later.ticker.subscribers ≡ none
Reach-subscribers_example =
    Reach-subscribers two_markets "ETH/USDT" later other_market later_reached

abbrev named_event : Event ℕ ℕ
named_event = record { payload = Payload.charts []; meta = some 0 }

abbrev one_map : Metas
one_map = record { heap = λ a. ("b", "2") ∷ []; next_address = 1 }

get_meta-with_meta_kv_example :
    get_meta "b"
      (with_meta_kv "a" "1" named_event one_map).0
      (with_meta_kv "a" "1" named_event one_map).1
    ≡ (if str_eq "a" "b" then "1" else get_meta "b" named_event one_map)
get_meta-with_meta_kv_example = get_meta-with_meta_kv "a" "b" "1" named_event one_map
