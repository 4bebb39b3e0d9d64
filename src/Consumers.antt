-- ===== src/Consumers.antt =====
-- internal/consumer: the fan-out of stored deals (deal.go) and the cache of tickers (ticker.go), with
-- the answers of internal/service/deal.go from that cache.
pub mod Delivery
pub mod Tickers
pub mod Fresh
use ohlcv.Base.{
  ℕ, ◌+◌, ◌≡◌, Bool, true, false, String, List, [], ◌∷◌, ◌++◌, Option, none, some, ℤ, ltb, length,
  ◌==◌, str_eq, Assoc, lookup, insert, remove, if◌then◌else◌,
}
use ohlcv.Current.{Deal}

-- A buffered channel, each subscriber's own.
pub record Channel (A : Type 0) : Type 0 where
  pub capacity : ℕ
  pub buffer : List A

module _ {A : Type 0} where
  -- A send in a select with a default: it is dropped when the buffer is full.
  unfoldable pub offer : A → Channel A → Channel A
  offer a ch =
      if ltb (length ch.buffer) ch.capacity then record ch { buffer = ch.buffer ++ a ∷ [] } else ch

  unfoldable pub subscribe : String → Channel A → Assoc (Channel A) → Assoc (Channel A)
  subscribe key channel subscribers = insert key channel subscribers

  unfoldable pub un_subscribe : String → Assoc (Channel A) → Assoc (Channel A)
  un_subscribe key subscribers = remove key subscribers

  -- What Consume does with a deal that it has received, under the lock.
  unfoldable pub consume_one : A → Assoc (Channel A) → Assoc (Channel A)
  unfolding offer
  consume_one d [] = []
  consume_one d ((key, channel) ∷ subscribers) = (key, offer d channel) ∷ consume_one d subscribers

-- domain.TickerPriceChangeStatistics.
pub record TickerStatistics : Type 0 where
  pub symbol : String
  pub price_change : String
  pub price_change_percent : String
  pub weighted_avg_price : String
  pub prev_close_price : String
  pub last_price : String
  pub last_qty : String
  pub bid_price : String
  pub bid_qty : String
  pub ask_price : String
  pub ask_qty : String
  pub open_price : String
  pub high_price : String
  pub low_price : String
  pub volume : String
  pub quote_volume : String
  pub open_time : ℤ
  pub close_time : ℤ
  pub first_id : String
  pub last_id : String
  pub count : ℤ

-- The cache holds pointers, which two keys may share: an address, and what is there.
pub record Ticker : Type 0 where
  pub cache : Assoc ℕ
  pub heap : ℕ → TickerStatistics
  pub next_address : ℕ
  pub subscribers : Assoc (Channel Deal)

unfoldable pub write : ℕ → TickerStatistics → (ℕ → TickerStatistics) → ℕ → TickerStatistics
write address value heap other = if other == address then value else heap other

pub read : Option ℕ → (ℕ → TickerStatistics) → Option TickerStatistics
read none heap = none
read (some address) heap = some (heap address)

-- What is found under a key.
unfoldable pub get : String → Ticker → Option TickerStatistics
unfolding read
get key c = read (lookup key c.cache) c.heap

-- Set, with a pointer to a new value, as LoadCache calls it.
unfoldable pub set : String → TickerStatistics → Ticker → Ticker
unfolding write
set key value c = record c {
  cache = insert key c.next_address c.cache;
  heap = write c.next_address value c.heap;
  next_address = c.next_address + 1;
}

offer_at : String → Deal → Option (Channel Deal) → Assoc (Channel Deal) → Assoc (Channel Deal)
offer_at key value none subscribers = subscribers
offer_at key value (some ch) subscribers = insert key (offer value ch) subscribers

unfoldable pub update_with_new_deal : String → Deal → Ticker → Ticker
unfolding offer_at
update_with_new_deal key value c = record c {
  subscribers = offer_at key value (lookup key c.subscribers) c.subscribers;
}

unfoldable pub updated : TickerStatistics → Deal → TickerStatistics
updated ticker deal = record ticker {
  last_price = deal.price;
  last_qty = deal.amount;
  close_time = deal.created_at;
  last_id = deal.id;
}

-- GetChanel, and UnSubscribe of the cache.
unfoldable pub get_chanel : String → Ticker → Option (Channel Deal)
get_chanel key c = lookup key c.subscribers

unfoldable pub leave : String → Ticker → Ticker
unfolding un_subscribe
leave key c = record c { subscribers = un_subscribe key c.subscribers }

-- The body of the inner loop of ConsumeNewDeals, for the market named m: the statistics are changed in
-- place, and put under the deal's market as well.
unfoldable pub consume_deal : String → Deal → Ticker → Ticker
unfolding updated write
consume_deal m deal c = elim (lookup m c.cache) [
  | none ↦ c
  | some address ↦ record c {
    heap = write address (updated (c.heap address) deal) c.heap;
    cache = insert deal.market address c.cache;
  }
]

-- Where ConsumeNewDeals is: at the head of its range, with the markets that are left; in the inner
-- loop for a market; or returned.
pub data Position : Type 0 where
  at_range : List (String × String) → Position
  in_loop : String → String → List (String × String) → Position
  returned : Position

pub record Session : Type 0 where
  pub position : Position
  pub ticker : Ticker

-- The subscription with which the body of the range begins.
unfoldable pub begin_market : String → Ticker → Ticker
unfolding subscribe
begin_market k c = record c {
  subscribers = subscribe k (record { capacity = 1024; buffer = [] }) c.subscribers;
}

-- What ConsumeNewDeals does next: the range takes a market or ends, and in the inner loop a deal is
-- consumed or the context ends. Beside it a message offers a deal, LoadCache sets a value, and a
-- subscriber leaves. Which deal is consumed is left open.
pub data Step (s : Session) : Session → Type 0 where
  begun :
      (k m : String) (rest : List (String × String))
      → s.position ≡ at_range ((k, m) ∷ rest)
      → Step s (record { position = in_loop k m rest; ticker = begin_market k s.ticker })
  exhausted : s.position ≡ at_range [] → Step s (record s { position = returned })
  consumed :
      (k m : String) (rest : List (String × String)) (deal : Deal)
      → s.position ≡ in_loop k m rest
      → Step s (record { position = in_loop k m rest; ticker = consume_deal m deal s.ticker })
  cancelled :
      (k m : String) (rest : List (String × String))
      → s.position ≡ in_loop k m rest
      → Step s (record s { position = returned })
  offered :
      (key : String) (deal : Deal)
      → Step s (record s { ticker = update_with_new_deal key deal s.ticker })
  loaded :
      (key : String) (value : TickerStatistics)
      → Step s (record s { ticker = set key value s.ticker })
  left : (key : String) → Step s (record s { ticker = leave key s.ticker })

unfoldable pub found_or : Option TickerStatistics → List TickerStatistics → List TickerStatistics
found_or none rest = rest
found_or (some ticker) rest = ticker ∷ rest

-- The loop over the markets' names, in the order that the range takes.
unfoldable pub statistics_of_all : List String → Ticker → List TickerStatistics
unfolding found_or
statistics_of_all [] c = []
statistics_of_all (m ∷ markets) c = found_or (get m c) (statistics_of_all markets c)

-- GetTickerPriceChangeStatistics; its error is always nil.
unfoldable pub get_ticker_price_change_statistics :
    List String → String → Ticker → List TickerStatistics
unfolding statistics_of_all found_or
get_ticker_price_change_statistics markets market c =
    if str_eq market "" then statistics_of_all markets c else found_or (get market c) []
