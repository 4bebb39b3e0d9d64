-- ===== src/Consuming.antt =====
-- The message handler of RunConsuming and a tick of LoadCache, of internal/service/deal.go: where the
-- running candles, the tickers and the stored deals meet.
pub mod Messages
pub mod Loading
use Prim.Native.String.{◌++◌ as text_append}
use ohlcv.Base.{
  String, List, [], ◌∷◌, Option, none, some, Assoc, Result, ok, err, Run, done, panic, then_run,
}
use ohlcv.Decimal.{Decimals}
use ohlcv.Current.{CurrentCandles, Deal, Visit, add_deal}
use ohlcv.Deals.{StoredDeal, Store, save_deal}
use ohlcv.Consumers.{TickerStatistics, Ticker, set, update_with_new_deal}

-- What a message may change.
pub record Process (D : Type 0) : Type 0 where
  pub candles : CurrentCandles D
  pub tickers : Ticker
  pub store : Store D

-- The end of the handler: the error of SaveDeal is wrapped, with the nil deal beside it.
unfoldable pub outcome_of : {D : Type 0} → Result (Option (StoredDeal D)) → Result (Unit {0})
outcome_of (ok deal) = ok tt
outcome_of (err e) = err (text_append "while saving deal <nil> into DB: " e)

module _ {D S : Type 0} (dec : Decimals D S) (insert_one : StoredDeal D → Result (Unit {0})) where
  -- A message that is a deal; the error of AddDeal is only logged.
  unfoldable pub handle_deal :
      Assoc String → Process D → Deal → List Visit → Run (Result (Unit {0}) × Process D)
  unfolding outcome_of
  handle_deal markets_map p deal visits =
      then_run (save_deal dec insert_one markets_map p.store deal) (λ saved. done (
        outcome_of saved.0,
        record {
          candles = (add_deal dec p.candles deal visits).0;
          tickers = update_with_new_deal deal.market deal p.tickers;
          store = saved.1;
        },
      ))

-- `Msg` is []byte, and `unmarshal` proto.Unmarshal.
module _ {D S Msg : Type 0} (dec : Decimals D S) (insert_one : StoredDeal D → Result (Unit {0}))
    (unmarshal : Msg → Result Deal) where
  -- The handler that Consume is given; `visits` are the rounds of AddDeal.
  unfoldable pub handle_message :
      Assoc String → Process D → Msg → List Visit → Run (Result (Unit {0}) × Process D)
  unfolding handle_deal
  handle_message markets_map p msg visits = elim (unmarshal msg) [
    | err e ↦ done (err (text_append "unmarshal error with protobuf deals msg: " e), p)
    | ok deal ↦ handle_deal dec insert_one markets_map p deal visits
  ]

-- The loop of a tick of LoadCache.
unfoldable pub load_all : List TickerStatistics → Ticker → Ticker
load_all [] c = c
load_all (ct ∷ current_tickers) c = load_all current_tickers (set ct.symbol ct c)

-- A tick of LoadCache, given what the repository answers for "".
unfoldable pub load_cache : Run (Result (List TickerStatistics)) → Ticker → Run Ticker
unfolding load_all
load_cache answer c =
    then_run answer
      (λ r. elim r [ err e ↦ done c | ok current_tickers ↦ done (load_all current_tickers c) ])
