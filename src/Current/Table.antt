-- ===== src/Current/Table.antt =====
-- The map of maps of candle/current_candles.go, with getSafeCandle and setSafeCandle.
use ohlcv.Base.{
  ◌≡◌, refl, ◌&&◌, String, [], Option, none, some, Assoc, lookup, insert, lookup-insert,
  lookup-empty, str_eq, eq_iff, if◌then◌else◌, arith,
}
use ohlcv.Candle.{Candle}

abbrev pub CandleTable : Type 0 → Type 0
CandleTable D = Assoc (Assoc (Candle D))

module _ {D : Type 0} where
  -- The row of a market, or the one that is made in place of nil.
  row_of : Option (Assoc (Candle D)) → Assoc (Candle D)
  row_of none = []
  row_of (some row) = row

  find_in : String → Option (Assoc (Candle D)) → Option (Candle D)
  find_in r none = none
  find_in r (some row) = lookup r row

  find_in-row_of : (r : String) (o : Option (Assoc (Candle D))) → lookup r (row_of o) ≡ find_in r o
  unfolding row_of find_in
  find_in-row_of r none = lookup-empty r
  find_in-row_of r (some row) = refl

  -- `none` is the nil pointer.
  unfoldable pub get_safe_candle : CandleTable D → String → String → Option (Candle D)
  unfolding find_in
  get_safe_candle candles market resolution = find_in resolution (lookup market candles)

  -- A nil row is made first.
  unfoldable pub set_safe_candle : CandleTable D → String → String → Candle D → CandleTable D
  unfolding row_of
  set_safe_candle candles market resolution candle =
      insert market (insert resolution candle (row_of (lookup market candles))) candles

  -- What is stored under a pair of keys is found there, and no other pair is touched.
  pub get_safe_candle-set :
      (candles : CandleTable D) (m r m' r' : String) (c : Candle D)
      → get_safe_candle (set_safe_candle candles m r c) m' r'
        ≡ (if str_eq m m' && str_eq r r' then some c else get_safe_candle candles m' r')
  unfolding get_safe_candle set_safe_candle
  get_safe_candle-set candles m r m' r' c =
      let row = row_of (lookup m candles) in
      ground (
        arith,
        eq_iff m m',
        lookup-insert m m' (insert r c row) candles,
        lookup-insert r r' c row,
        find_in-row_of r' (lookup m candles),
      )

  pub get_safe_candle-empty : (m r : String) → get_safe_candle [] m r ≡ none
  unfolding get_safe_candle
  get_safe_candle-empty m r = rw lookup-empty
