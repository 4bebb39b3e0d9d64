-- ===== src/Consumers/Fresh.antt =====
-- A value that is put under a key of the cache of tickers is found there, and disturbs no other.
use ohlcv.Base.{
  ℕ, ◌<◌, ◌≡◌, refl, ap, ◌∙◌, inl, inr, String, Option, none, some, str_eq, lookup, insert,
  lookup-insert, arith, if◌then◌else◌, Bool-cases,
}
use ohlcv.Consumers.{TickerStatistics, Ticker, get, set, read, write}
use ohlcv.Consumers.Tickers.{read_written}

-- No key leads to an address that is still to be given.
abbrev pub IsFresh : Ticker → Type 0
IsFresh c = (key : String) (a : ℕ) → lookup key c.cache ≡ some a → a < c.next_address

pub set-IsFresh :
    (key : String) (value : TickerStatistics) (c : Ticker) → IsFresh c → IsFresh (set key value c)
unfolding set
set-IsFresh key value c fresh other a e =
    ground (arith, lookup-insert key other c.next_address c.cache, fresh other a)

read-write_other :
    (o : Option ℕ) (n : ℕ) (value : TickerStatistics) (heap : ℕ → TickerStatistics)
    → ((a : ℕ) → o ≡ some a → a < n)
    → read o (write n value heap) ≡ read o heap
unfolding read write
read-write_other none n value heap below = refl
read-write_other (some a) n value heap below = ground (arith, below a refl)

-- Set is read at its own key, and nowhere else.
pub get-set :
    (key other : String) (value : TickerStatistics) (c : Ticker)
    → IsFresh c
    → get other (set key value c) ≡ (if str_eq key other then some value else get other c)
unfolding get set
get-set key other value c fresh = elim (Bool-cases (str_eq key other)) [
  | inl same ↦
      let found : lookup other (insert key c.next_address c.cache) ≡ some c.next_address =
        ground (arith, lookup-insert key other c.next_address c.cache) in
      rw same (read_written c.next_address value c.heap _ found)
  | inr differs ↦
      let kept : lookup other (insert key c.next_address c.cache) ≡ lookup other c.cache =
        ground (arith, lookup-insert key other c.next_address c.cache) in
      rw differs (
        ap (λ o. read o (write c.next_address value c.heap)) kept
        ∙ read-write_other (lookup other c.cache) c.next_address value c.heap (fresh other))
]
