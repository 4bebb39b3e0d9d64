-- ===== src/Startup/Filling.antt =====
-- The states that the filling from Mongo leads to.
use ohlcv.Base.{
  done-injective, none-ne-some, ok-injective, some-injective, then_run-done, panic-ne-done, ℕ, ◌≡◌,
  refl, sym, ◌∙◌, ap, ◌⊎◌, inl, inr, String, List, [], ◌∷◌, Option, none, some, Assoc, lookup, All,
  Result, ok, err, Run, done, panic, subst,
}
use ohlcv.Resolution.Names.{Named, named, text, get_available_resolutions}
use ohlcv.Decimal.{Decimals}
use ohlcv.Candle.{Candle, Chart, chart_to_current_candle, empty_candle, set_market, set_resolution}
use ohlcv.Candle.Conversion.{chart_to_current_candle-last}
use ohlcv.Service.{Query, get_current_candle, get_candle_by_resolution}
use ohlcv.Current.{CurrentCandles, add_candle}
use ohlcv.Current.Invariant.{IsKeyed, IsValid, Reach-IsValid, Reach, start, next, adds}
use ohlcv.Startup.{Readings, init_one, init_market, init_current_candles}

module _ {D S : Type 0} (dec : Decimals D S) (aggregate : Query → Result (List (Chart D))) where
  labels :
      (market r : String) (o : Option (Chart D)) (k : Chart D)
      → ◌≡◌ {A = Run (Option (Chart D))}
          (elim o [
            | none ↦ done none
            | some chart ↦ done (some (set_resolution (set_market chart market) r))
          ])
          (done (some k))
      → (k.symbol ≡ market) × (k.resolution ≡ r)
  unfolding set_market set_resolution
  labels market r none k e = absurd (none-ne-some (done-injective e))
  labels market r (some chart) k e =
      let same = some-injective (done-injective e) in
      (ap (λ x. x.symbol) (sym same), ap (λ x. x.resolution) (sym same))

  -- The chart that GetCurrentCandle finds is labelled with the request's market and resolution.
  current_candle_labels :
      (market r : String) (now later : ℕ) (k : Chart D)
      → get_current_candle aggregate market r now later ≡ done (some k)
      → (k.symbol ≡ market) × (k.resolution ≡ r)
  unfolding get_current_candle
  current_candle_labels market r now later k e =
      let (o, found, rest) =
        then_run-done (get_candle_by_resolution aggregate market r _ later) _ (some k) e in
      labels market r o k rest

  module _ (names : Assoc String) where
    -- Every market of the list has its name in the map.
    abbrev pub AreNamed : List (String × String) → Type 0
    AreNamed = All (λ m. lookup m.0 names ≡ some m.1)

    -- The candle that a round adds is the empty one, or belongs to the round's keys.
    converted :
        (id name r : String) (now later : ℕ) (o : Option (Chart D)) (c : Candle D)
        → lookup id names ≡ some name
        → get_current_candle aggregate name r now later ≡ done o
        → chart_to_current_candle dec.empty o r ≡ ok c
        → (c ≡ empty_candle dec.empty) ⊎ IsKeyed names id r c
    unfolding chart_to_current_candle
    converted id name r now later none c named found e = inl (sym (ok-injective e))
    converted id name r now later (some k) c named found e =
        let labels = current_candle_labels name r now later k found in
        let last = chart_to_current_candle-last dec.empty k r c e in
        inr (record {
          symbol = inr (named ∙ ap some (sym (last.0 ∙ labels.0)));
          resolution = last.1 ∙ labels.1;
          close_time = last.8;
        })

    -- A candle that may be added under the keys.
    abbrev pub MayBeAdded : String → String → Candle D → Type 0
    MayBeAdded id r c = (c ≡ empty_candle dec.empty) ⊎ IsKeyed names id r c

    added :
        (st st' : CurrentCandles D) (id name r : String) (clock : Readings) (o : Option (Chart D))
        (x : Result (Candle D))
        → chart_to_current_candle dec.empty o r ≡ x
        → lookup id names ≡ some name
        → get_current_candle aggregate name r clock.now clock.later ≡ done o
        → ◌≡◌ {A = Run (CurrentCandles D)}
            (elim x [
              | err e ↦ panic
              | ok current_candle ↦ done (add_candle dec st id r current_candle clock.last)
            ])
            (done st')
        → (c : Candle D) × MayBeAdded id r c × (add_candle dec st id r c clock.last ≡ st')
    added st st' id name r clock o (err m) x named found e = absurd (panic-ne-done e)
    added st st' id name r clock o (ok c) x named found e =
        (c, converted id name r clock.now clock.later o c named found x, done-injective e)

    -- A round of initCurrentCandles that returns has added a candle: the empty one, or one that
    -- belongs to the round's keys.
    pub init_one-added :
        (st st' : CurrentCandles D) (id name : String) (n : Named) (clock : Readings)
        → lookup id names ≡ some name
        → init_one dec aggregate st id name (text n) clock ≡ done st'
        → (c : Candle D) × MayBeAdded id (text n) c
          × (add_candle dec st id (text n) c clock.last ≡ st')
    unfolding init_one
    init_one-added st st' id name n clock named e =
        let (o, found, rest) =
          then_run-done (get_current_candle aggregate name (text n) clock.now clock.later) _ st'
            e in
        added st st' id name (text n) clock o (chart_to_current_candle dec.empty o (text n)) refl
          named found rest

    init_one-Reach :
        (st st' : CurrentCandles D) (id name : String) (n : Named) (clock : Readings)
        → lookup id names ≡ some name
        → Reach dec names st
        → init_one dec aggregate st id name (text n) clock ≡ done st'
        → Reach dec names st'
    init_one-Reach st st' id name n clock named reached e =
        let (c, may, same) = init_one-added st st' id name n clock named e in
        subst (Reach dec names) same (next reached (adds id (text n) c clock.last may))

    init_market-Reach :
        (st st' : CurrentCandles D) (id name : String) (ns : List Named) (clock : Named → Readings)
        → lookup id names ≡ some name
        → Reach dec names st
        → init_market dec aggregate st id name ns clock ≡ done st'
        → Reach dec names st'
    unfolding init_market
    init_market-Reach st st' id name [] clock named reached e =
        subst (Reach dec names) (done-injective e) reached
    init_market-Reach st st' id name (n ∷ ns) clock named reached e =
        let (mid, first, rest) =
          then_run-done (init_one dec aggregate st id name (text n) (clock n)) _ st' e in
        init_market-Reach mid st' id name ns clock named
          (init_one-Reach st mid id name n (clock n) named reached first) rest

    filled_from :
        (st st' : CurrentCandles D) (markets : List (String × String))
        (clock : String → Named → Readings)
        → AreNamed markets
        → Reach dec names st
        → init_current_candles dec aggregate st markets clock ≡ done st'
        → Reach dec names st'
    unfolding init_current_candles
    filled_from st st' [] clock named reached e = subst (Reach dec names) (done-injective e) reached
    filled_from st st' ((id, name) ∷ markets) clock named reached e =
        let (mid, first, rest) =
          then_run-done (init_market dec aggregate st id name get_available_resolutions (clock id))
            _ st' e in
        filled_from mid st' markets clock named.1
          (init_market-Reach st mid id name get_available_resolutions (clock id) named.0 reached
            first)
          rest

    -- When initCurrentCandles returns, for markets whose names are in the map, every candle that it
    -- has stored is called by its market's identifier or name, has the resolution that it is stored
    -- under and closes where that says.
    pub init_current_candles-IsValid :
        (st : CurrentCandles D) (markets : List (String × String))
        (clock : String → Named → Readings)
        → AreNamed markets
        → init_current_candles dec aggregate (record { candles = []; updates = [] }) markets clock
          ≡ done st
        → IsValid names st
    init_current_candles-IsValid st markets clock named e =
        Reach-IsValid dec names st (filled_from _ st markets clock named start e)
