-- ===== src/Statistics/Typing.antt =====
-- Which documents can be read as statistics.
use ohlcv.Base.{
  ◌⊎◌, inl, inr, ◌≡◌, refl, ◌↔◌, String, Option, some, ℤ, pos, done, panic, then_run-done,
}
use ohlcv.Decimal.{Decimals}
use ohlcv.Bson.{
  Bson, Fields, decimal, utf8, date, int32, value_at, as_decimal, as_text, as_date, as_int32,
}
use ohlcv.Consumers.{TickerStatistics}
use ohlcv.Statistics.{Floats, calc_change, calc_vwap, parse_prev_close_price, parse_statistics}

module _ {D F : Type 0} where
  -- The value of a key, of the type that is asked for.
  abbrev pub HasDecimal : String → Fields D F → Type 0
  HasDecimal key m = (d : D) × (value_at key m ≡ some (decimal d))

  abbrev pub HasText : String → Fields D F → Type 0
  HasText key m = (s : String) × (value_at key m ≡ some (utf8 s))

  abbrev pub HasDate : String → Fields D F → Type 0
  HasDate key m = (t : ℤ) × (value_at key m ≡ some (date t))

  abbrev pub HasInt32 : String → Fields D F → Type 0
  HasInt32 key m = (n : ℤ) × (value_at key m ≡ some (int32 n))

  -- What $group makes of deals whose prices and volumes are decimals.
  pub record IsStatistics (m : Fields D F) : Type 0 where
    pub symbol : HasText "_id" m
    pub close_price : HasDecimal "closePrice" m
    pub open_price : HasDecimal "openPrice" m
    pub quote_volume : HasDecimal "quoteVolume" m
    pub volume : HasDecimal "volume" m
    pub high_price : HasDecimal "highPrice" m
    pub low_price : HasDecimal "lowPrice" m
    pub open_time : HasDate "openTime" m
    pub close_time : HasDate "closeTime" m
    pub first_id : HasText "firstId" m
    pub last_id : HasText "lastId" m
    pub last_qty : HasDecimal "lastQty" m
    pub count : HasInt32 "count" m

  pub as_decimal-done :
      (o : Option (Bson D F)) (d : D) → as_decimal o ≡ done d → o ≡ some (decimal d)
  unfolding as_decimal
  as_decimal-done (some (decimal a)) d h = cc
  as_decimal-done other d h = cc

  -- A value is a decimal, or is none and the assertion panics.
  pub decimal_cases :
      (o : Option (Bson D F))
      → ((d : D) × (o ≡ some (decimal d)))
        ⊎ ((as_decimal o ≡ panic) × (((d : D) × (o ≡ some (decimal d))) → ⊥))
  unfolding as_decimal
  decimal_cases (some (decimal d)) = inl (d, refl)
  decimal_cases other = inr (refl, λ (d, e). cc)

  as_text-done : (o : Option (Bson D F)) (s : String) → as_text o ≡ done s → o ≡ some (utf8 s)
  unfolding as_text
  as_text-done (some (utf8 a)) s h = cc
  as_text-done other s h = cc

  as_date-done : (o : Option (Bson D F)) (t : ℤ) → as_date o ≡ done t → o ≡ some (date t)
  unfolding as_date
  as_date-done (some (date a)) t h = cc
  as_date-done other t h = cc

  as_int32-done : (o : Option (Bson D F)) (n : ℤ) → as_int32 o ≡ done n → o ≡ some (int32 n)
  unfolding as_int32
  as_int32-done (some (int32 a)) n h = cc
  as_int32-done other n h = cc

module _ {D S F : Type 0} (dec : Decimals D S) (fl : Floats F) where
  pub parsed-IsStatistics :
      (m : Fields D F) (s : TickerStatistics) → parse_statistics dec fl m ≡ done s → IsStatistics m
  unfolding parse_statistics
  parsed-IsStatistics m s e =
      let (close_price, h1, e1) = then_run-done (as_decimal (value_at "closePrice" m)) _ s e in
      let (open_price, h2, e2) = then_run-done (as_decimal (value_at "openPrice" m)) _ s e1 in
      let (quote_volume, h3, e3) = then_run-done (as_decimal (value_at "quoteVolume" m)) _ s e2 in
      let (volume, h4, e4) = then_run-done (as_decimal (value_at "volume" m)) _ s e3 in
      let (symbol, h5, e5) = then_run-done (as_text (value_at "_id" m)) _ s e4 in
      let (high_price, h6, e6) = then_run-done (as_decimal (value_at "highPrice" m)) _ s e5 in
      let (low_price, h7, e7) = then_run-done (as_decimal (value_at "lowPrice" m)) _ s e6 in
      let (open_time, h8, e8) = then_run-done (as_date (value_at "openTime" m)) _ s e7 in
      let (close_time, h9, e9) = then_run-done (as_date (value_at "closeTime" m)) _ s e8 in
      let (first_id, h10, e10) = then_run-done (as_text (value_at "firstId" m)) _ s e9 in
      let (last_id, h11, e11) = then_run-done (as_text (value_at "lastId" m)) _ s e10 in
      let (last_qty, h12, e12) = then_run-done (as_decimal (value_at "lastQty" m)) _ s e11 in
      let (count, h13, e13) = then_run-done (as_int32 (value_at "count" m)) _ s e12 in
      record {
        symbol = (symbol, as_text-done _ symbol h5);
        close_price = (close_price, as_decimal-done _ close_price h1);
        open_price = (open_price, as_decimal-done _ open_price h2);
        quote_volume = (quote_volume, as_decimal-done _ quote_volume h3);
        volume = (volume, as_decimal-done _ volume h4);
        high_price = (high_price, as_decimal-done _ high_price h6);
        low_price = (low_price, as_decimal-done _ low_price h7);
        open_time = (open_time, as_date-done _ open_time h8);
        close_time = (close_time, as_date-done _ close_time h9);
        first_id = (first_id, as_text-done _ first_id h10);
        last_id = (last_id, as_text-done _ last_id h11);
        last_qty = (last_qty, as_decimal-done _ last_qty h12);
        count = (count, as_int32-done _ count h13);
      }

  -- The record that a document is read as.
  abbrev pub reading : (m : Fields D F) → IsStatistics m → TickerStatistics
  reading m h = record {
    symbol = h.symbol.0;
    price_change = fl.format_float (calc_change dec fl h.close_price.0 h.open_price.0).0 (pos 8);
    price_change_percent =
        fl.format_float (calc_change dec fl h.close_price.0 h.open_price.0).1 (pos 8);
    weighted_avg_price = calc_vwap dec fl h.quote_volume.0 h.volume.0;
    prev_close_price = parse_prev_close_price dec fl (value_at "prev_window_trade" m);
    last_price = dec.to_text h.close_price.0;
    last_qty = dec.to_text h.last_qty.0;
    bid_price = "";
    bid_qty = "";
    ask_price = "";
    ask_qty = "";
    open_price = dec.to_text h.open_price.0;
    high_price = dec.to_text h.high_price.0;
    low_price = dec.to_text h.low_price.0;
    volume = dec.to_text h.volume.0;
    quote_volume = dec.to_text h.quote_volume.0;
    open_time = h.open_time.0;
    close_time = h.close_time.0;
    first_id = h.first_id.0;
    last_id = h.last_id.0;
    count = h.count.0;
  }

  pub IsStatistics-parsed :
      (m : Fields D F) (h : IsStatistics m) → parse_statistics dec fl m ≡ done (reading m h)
  unfolding parse_statistics as_decimal as_text as_date as_int32
  IsStatistics-parsed m h =
      rw
        (
          h.close_price.1, h.open_price.1, h.quote_volume.1, h.volume.1, h.symbol.1, h.high_price.1,
          h.low_price.1, h.open_time.1, h.close_time.1, h.first_id.1, h.last_id.1, h.last_qty.1,
          h.count.1,
        )
        refl

  -- parseStatistics meets no failing type assertion exactly when the document has the fields of the
  -- group with their types.
  pub parse_statistics-done_iff :
      (m : Fields D F)
      → ((s : TickerStatistics) × (parse_statistics dec fl m ≡ done s)) ↔ IsStatistics m
  parse_statistics-done_iff m =
      (λ (s, e). parsed-IsStatistics m s e, λ h. (reading m h, IsStatistics-parsed m h))
