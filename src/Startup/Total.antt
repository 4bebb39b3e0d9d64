-- ===== src/Startup/Total.antt =====
-- The filling from Mongo ends, where Mongo's charts have no empty column.
use mathlib.Core.Option
use ohlcv.Base.{ℕ, ◌≡◌, refl, String, List, [], ◌∷◌, Option, none, some, Result, ok, done, then_run}
use ohlcv.Time.{from_unix}
use ohlcv.Resolution.Names.{Named, named-text, text, get_available_resolutions}
use ohlcv.Decimal.{Decimals}
use ohlcv.Candle.{Candle, Chart, chart_to_current_candle, set_market, set_resolution, empty_candle}
use ohlcv.Candle.Conversion.{HasEmptyColumn, chart_to_current_candle-ok}
use ohlcv.Service.{Query, get_current_candle}
use ohlcv.Service.Bins.{answered, asked, labelled, labelled_answer}
use ohlcv.Start.{get_resolution_start_timestamp_by_time}
use ohlcv.Current.{CurrentCandles, add_candle}
use ohlcv.Startup.{Readings, init_one, init_market, init_current_candles}

module _ {D S : Type 0} (dec : Decimals D S) (aggregate : Query → Result (List (Chart D))) where
  -- Mongo answers no chart with an empty column: its groups have a document each.
  abbrev pub AnswersAreFull : Type 0
  AnswersAreFull = (q : Query) (k : Chart D) → answered (aggregate q) ≡ some k → ¬ HasEmptyColumn k

  current_candle :
      (market : String) (n : Named) (now later : ℕ)
      → (q : Query) × (get_current_candle aggregate market (text n) now later
          ≡ done (Option.map (labelled aggregate market (text n)) (answered (aggregate q))))
  unfolding get_current_candle set_market set_resolution
  current_candle market n now later =
      let start = from_unix (get_resolution_start_timestamp_by_time (text n) now) in
      let q = asked aggregate market start later n in
      (
        q,
        rw
            (
              labelled_answer aggregate market (text n) start later n (named-text n),
              get_current_candle,
            )
            (relabel (answered (aggregate q))),
      )
    where
      relabel :
          (o : Option (Chart D))
          → (elim (Option.map (labelled aggregate market (text n)) o) [
            | none ↦ done none
            | some chart ↦ done (some (set_resolution (set_market chart market) (text n)))
          ])
            ≡ done (Option.map (labelled aggregate market (text n)) o)
      relabel none = refl
      relabel (some k) = refl

  converts :
      (r market : String) (o : Option (Chart D))
      → ((k : Chart D) → o ≡ some k → ¬ HasEmptyColumn k)
      → (c : Candle D) × (chart_to_current_candle dec.empty
            (Option.map (labelled aggregate market r) o)
            r
          ≡ ok c)
  unfolding chart_to_current_candle
  converts r market none full = (empty_candle dec.empty, refl)
  converts r market (some k) full =
      chart_to_current_candle-ok dec.empty (labelled aggregate market r k) r (full k refl)

  init_one-total :
      (st : CurrentCandles D) (id name : String) (n : Named) (clock : Readings)
      → AnswersAreFull
      → (st' : CurrentCandles D) × (init_one dec aggregate st id name (text n) clock ≡ done st')
  unfolding init_one
  init_one-total st id name n clock full =
      let (q, found) = current_candle name n clock.now clock.later in
      let (c, converted) = converts (text n) name (answered (aggregate q)) (full q) in
      (add_candle dec st id (text n) c clock.last, rw (found, init_one) (rw (converted, then_run)))

  init_market-total :
      (st : CurrentCandles D) (id name : String) (ns : List Named) (clock : Named → Readings)
      → AnswersAreFull
      → (st' : CurrentCandles D) × (init_market dec aggregate st id name ns clock ≡ done st')
  unfolding init_market
  init_market-total st id name [] clock full = (st, refl)
  init_market-total st id name (n ∷ ns) clock full =
      let (mid, first) = init_one-total st id name n (clock n) full in
      rw (first, init_market) (init_market-total mid id name ns clock full)

  -- Where Mongo answers with errors, with nothing or with charts that have no empty column,
  -- initCurrentCandles meets no error that ends the process.
  pub init_current_candles-total :
      (st : CurrentCandles D) (markets : List (String × String)) (clock : String → Named → Readings)
      → AnswersAreFull
      → (st' : CurrentCandles D) × (init_current_candles dec aggregate st markets clock ≡ done st')
  unfolding init_current_candles
  init_current_candles-total st [] clock full = (st, refl)
  init_current_candles-total st ((id, name) ∷ markets) clock full =
      let (mid, first) = init_market-total st id name get_available_resolutions (clock id) full in
      rw (first, init_current_candles) (init_current_candles-total mid markets clock full)
