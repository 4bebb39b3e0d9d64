-- ===== src/Example/Wiring.antt =====
-- The theorems on the start of the process and on broadcasting, applied to the examples.
use mathlib.Core.Bool.{false≢true}
use ohlcv.Base.{
  ◌≢◌, ◌↔◌, none-ne-some, sym, ◌∙◌, ◌≡◌, refl, String, List, [], ◌∷◌, none, some, Assoc, lookup,
  done, eq_iff, ok, Result,
}
use ohlcv.Resolution.Names.{Named}
use ohlcv.Candle.{Chart}
use ohlcv.Candle.Conversion.{HasEmptyColumn}
use ohlcv.Service.{Query}
use ohlcv.Service.Bins.{answered}
use ohlcv.Current.{CurrentCandles}
use ohlcv.Current.Invariant.{IsValid}
use ohlcv.Startup.{Readings, init_current_candles}
use ohlcv.Startup.Filling.{init_current_candles-IsValid}
use ohlcv.Startup.Total.{init_current_candles-total}
use ohlcv.Startup.Symbols.{IsNamed}
use ohlcv.Deals.{
  StoredDeal, Store, validate, market_matches, must_parse_decimal, stored_deal, save_valid,
  save_deal, send, date_time,
}
use ohlcv.Text.{codes}
use ohlcv.Deals.Pattern.{HasPair}
use ohlcv.Deals.Saving.{IsLegal, validate-ok_iff, Ended, save_deal-Ended}
use ohlcv.Example.{deal_at, tally, noon, no_candles}

abbrev pub names : Assoc String
names = ("BTC/USDT", "BTC_USDT") ∷ []

-- Mongo with no charts.
abbrev pub no_charts : Query → Result (List (Chart String))
no_charts q = ok []

abbrev clock : String → Named → Readings
clock id n = record { now = noon; later = noon; last = noon }

known : lookup "BTC/USDT" names ≡ some "BTC_USDT"
unfolding lookup
known = refl

name_unknown : lookup "BTC_USDT" names ≡ none
unfolding lookup
name_unknown = refl

all_empty : (q : Query) (k : Chart String) → answered (no_charts q) ≡ some k → ¬ HasEmptyColumn k
all_empty q k e = cc

init_current_candles-total_example :
    (st : CurrentCandles String) × (init_current_candles tally no_charts no_candles names clock
      ≡ done st)
init_current_candles-total_example =
    init_current_candles-total tally no_charts no_candles names clock all_empty

-- What the filling stores: the fresh candles of every resolution.
abbrev filled :
    (st : CurrentCandles String) × (init_current_candles tally no_charts no_candles names clock
      ≡ done st)
filled = init_current_candles-total tally no_charts no_candles names clock all_empty

init_current_candles-IsValid_example : IsValid names filled.0
init_current_candles-IsValid_example =
    init_current_candles-IsValid tally no_charts names filled.0 names clock (known, tt) filled.1

pub IsNamed-market : IsNamed names "BTC/USDT" "BTC_USDT"
IsNamed-market = record {
  known = known;
  not_empty = λ e. false≢true ((eq_iff "BTC_USDT" "").1 e);
  no_identifier = λ other e. absurd (none-ne-some (sym name_unknown ∙ e));
}

abbrev pub bare_deal : StoredDeal String
bare_deal = stored_deal names (deal_at "|||") "|||" "||"

validate-ok_iff_example : (validate tally bare_deal ≡ ok tt) ↔ (
    (bare_deal.deal_data.deal_id ≢ "")
    × IsLegal tally "|||"
    × IsLegal tally "||"
    × HasPair (codes bare_deal.deal_data.market))
unfolding stored_deal
validate-ok_iff_example = validate-ok_iff tally bare_deal

abbrev pub no_deals : Store String
no_deals = record { collection = []; channel = [] }

abbrev pub accepts : StoredDeal String → Result (Unit {0})
accepts d = ok tt

abbrev pub one_deal : Store String
one_deal = record { collection = bare_deal ∷ []; channel = bare_deal ∷ [] }

deal_saved :
    save_deal tally accepts names no_deals (deal_at "|||") ≡ done (ok (some bare_deal), one_deal)
unfolding save_deal must_parse_decimal stored_deal save_valid validate send market_matches date_time
    lookup
deal_saved = refl

save_deal-Ended_example : Ended tally accepts no_deals one_deal (ok (some bare_deal))
save_deal-Ended_example =
    save_deal-Ended tally accepts names no_deals one_deal (deal_at "|||") (ok (some bare_deal))
      deal_saved
