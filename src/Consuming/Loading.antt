-- ===== src/Consuming/Loading.antt =====
-- What a tick of LoadCache leaves in the cache of tickers.
use ohlcv.Base.{
  ◌≡◌, refl, ap, ◌∙◌, ◌⊎◌, inl, inr, String, List, [], ◌∷◌, Option, some, Result, ok, err, done,
  str_eq, if◌then◌else◌,
}
use ohlcv.Consumers.{TickerStatistics, Ticker, get, set}
use ohlcv.Consumers.Fresh.{IsFresh, set-IsFresh, get-set}
use ohlcv.Consuming.{load_all, load_cache}

-- The last of the statistics with a symbol, if there are any.
abbrev pub latest :
    String → List TickerStatistics → Option TickerStatistics → Option TickerStatistics
latest wanted [] found = found
latest wanted (t ∷ ts) found = latest wanted ts (if str_eq t.symbol wanted then some t else found)

pub load_all-get :
    (ts : List TickerStatistics) (c : Ticker)
    → IsFresh c
    → IsFresh (load_all ts c)
      × ((wanted : String) → get wanted (load_all ts c) ≡ latest wanted ts (get wanted c))
unfolding load_all
load_all-get [] c fresh = (fresh, λ wanted. refl)
load_all-get (t ∷ ts) c fresh =
    let (fresh', later) = load_all-get ts (set t.symbol t c) (set-IsFresh t.symbol t c fresh) in
    (fresh', λ wanted. later wanted ∙ ap (latest wanted ts) (get-set t.symbol wanted t c fresh))

-- A tick of LoadCache whose query fails leaves the cache as it is; another leaves, under the symbol of
-- each of the statistics, the last of those with that symbol, and under every other key what was
-- there.
pub load_cache-get :
    (answer : Result (List TickerStatistics)) (c : Ticker)
    → IsFresh c
    → (c' : Ticker) × (load_cache (done answer) c ≡ done c')
      × IsFresh c'
      × (((e : String) × (answer ≡ err e) × (c' ≡ c))
          ⊎ ((ts : List TickerStatistics) × (answer ≡ ok ts)
              × ((wanted : String) → get wanted c' ≡ latest wanted ts (get wanted c))))
unfolding load_cache
load_cache-get (err e) c fresh = (c, refl, fresh, inl (e, refl, refl))
load_cache-get (ok ts) c fresh =
    let (fresh', later) = load_all-get ts c fresh in
    (load_all ts c, refl, fresh', inr (ts, refl, later))
