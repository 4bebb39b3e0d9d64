-- ===== src/Server/Answers.antt =====
-- What the gRPC server answers.
use ohlcv.Base.{
  ◌≡◌, ◌≢◌, refl, sym, ap, ◌∙◌, String, List, [], ◌∷◌, map, Option, none, some, ok, str_eq, eq_iff,
  false, arith, done, done-injective,
}
use ohlcv.Consumers.{TickerStatistics, Ticker, get, found_or, get_ticker_price_change_statistics}
use ohlcv.Consumers.Fresh.{IsFresh}
use ohlcv.Consuming.{load_cache}
use ohlcv.Consuming.Loading.{latest, load_all-get}
use ohlcv.Server.{answer_each, each, ticker_message, get_ticker}

each-map : {A B : Type 0} (f : A → B) (xs : List A) → each f xs ≡ map f xs
unfolding each
each-map f [] = refl
each-map f (x ∷ xs) = ap (λ rest. f x ∷ rest) (each-map f xs)

-- What is found, as a list.
abbrev pub found_list : Option TickerStatistics → List TickerStatistics
found_list none = []
found_list (some t) = t ∷ []

found_or-found_list : (o : Option TickerStatistics) → found_or o [] ≡ found_list o
unfolding found_or
found_or-found_list none = refl
found_or-found_list (some t) = refl

-- After a tick of LoadCache, GetTicker for a market answers the message of the last of the statistics
-- with its symbol, or of what was cached before if there are none; of a market that has neither it
-- answers no tickers.
pub get_ticker-load_cache :
    (ts : List TickerStatistics) (c c' : Ticker) (markets : List String) (symbol : String)
    → IsFresh c
    → load_cache (done (ok ts)) c ≡ done c'
    → symbol ≢ ""
    → get_ticker markets symbol c'
      ≡ ok (map ticker_message (found_list (latest symbol ts (get symbol c))))
unfolding get_ticker get_ticker_price_change_statistics answer_each load_cache
get_ticker-load_cache ts c c' markets symbol fresh loaded given =
    let same = done-injective loaded in
    let read = load_all-get ts c fresh in
    let other : str_eq symbol "" ≡ false = ground (arith, eq_iff symbol "", given) in
    rw other (
      ap (λ l. ok (each ticker_message l))
        (ap (λ x. found_or (get symbol x) []) (sym same)
          ∙ ap (λ o. found_or o []) (read.1 symbol)
          ∙ found_or-found_list (latest symbol ts (get symbol c)))
      ∙ ap ok (each-map ticker_message _))
