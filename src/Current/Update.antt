-- ===== src/Current/Update.antt =====
-- What a successful updateCandle has read, and what it has made of it.
use ohlcv.Base.{ok-injective, bind-ok, ◌≡◌, sym, ◌∙◌, ap, ◌||◌, ℤ, pos, ltb_ℤ, ok, if◌then◌else◌}
use ohlcv.Decimal.{Decimals, add_primitive_decimal128}
use ohlcv.Decimal.Compare.{compare_decimal128}
use ohlcv.Candle.{Candle}
use ohlcv.Current.{Deal, update_candle}

module _ {D S : Type 0} (dec : Decimals D S) where
  -- The new candle, from what the decimals answer.
  abbrev pub moved : Candle D → D → D → ℤ → ℤ → Candle D
  moved c price volume high_cmp low_cmp = record c {
    opening = if dec.is_zero c.volume then price else c.opening;
    high = if ltb_ℤ (pos 0) high_cmp then price else c.high;
    low = if ltb_ℤ low_cmp (pos 0) || dec.is_zero c.low then price else c.low;
    closing = price;
    volume = volume;
  }

  pub record Updated (c c' : Candle D) (deal : Deal) : Type 0 where
    pub price : D
    pub amount : D
    pub high_cmp : ℤ
    pub low_cmp : ℤ
    pub price_ok : dec.parse_decimal128 deal.price ≡ ok price
    pub amount_ok : dec.parse_decimal128 deal.amount ≡ ok amount
    pub volume_ok : add_primitive_decimal128 dec amount c.volume ≡ ok c'.volume
    pub high_ok : compare_decimal128 dec price c.high ≡ ok high_cmp
    pub low_ok : compare_decimal128 dec price c.low ≡ ok low_cmp
    pub symbol : c'.symbol ≡ c.symbol
    pub resolution : c'.resolution ≡ c.resolution
    pub open_time : c'.open_time ≡ c.open_time
    pub close_time : c'.close_time ≡ c.close_time
    pub is_moved : c' ≡ moved c price c'.volume high_cmp low_cmp

  Updated-of :
      (c c' : Candle D) (deal : Deal) (price amount volume : D) (high_cmp low_cmp : ℤ)
      → dec.parse_decimal128 deal.price ≡ ok price
      → dec.parse_decimal128 deal.amount ≡ ok amount
      → add_primitive_decimal128 dec amount c.volume ≡ ok volume
      → compare_decimal128 dec price c.high ≡ ok high_cmp
      → compare_decimal128 dec price c.low ≡ ok low_cmp
      → moved c price volume high_cmp low_cmp ≡ c'
      → Updated c c' deal
  Updated-of c c' deal price amount volume high_cmp low_cmp p a v h l e = record {
    price = price;
    amount = amount;
    high_cmp = high_cmp;
    low_cmp = low_cmp;
    price_ok = p;
    amount_ok = a;
    volume_ok = v ∙ ap (λ k. ok k.volume) e;
    high_ok = h;
    low_ok = l;
    symbol = sym (ap (λ k. k.symbol) e);
    resolution = sym (ap (λ k. k.resolution) e);
    open_time = sym (ap (λ k. k.open_time) e);
    close_time = sym (ap (λ k. k.close_time) e);
    is_moved = sym e ∙ ap (λ k. moved c price k.volume high_cmp low_cmp) e;
  }

  pub update_candle-Updated :
      (c c' : Candle D) (deal : Deal) → update_candle dec c deal ≡ ok c' → Updated c c' deal
  unfolding update_candle
  update_candle-Updated c c' deal e =
      let (price, price_ok, e1) = bind-ok (dec.parse_decimal128 deal.price) _ c' e in
      let (amount, amount_ok, e2) = bind-ok (dec.parse_decimal128 deal.amount) _ c' e1 in
      let (volume, volume_ok, e3) =
        bind-ok (add_primitive_decimal128 dec amount c.volume) _ c' e2 in
      let (high_cmp, high_ok, e4) = bind-ok (compare_decimal128 dec price c.high) _ c' e3 in
      let (low_cmp, low_ok, e5) = bind-ok (compare_decimal128 dec price c.low) _ c' e4 in
      Updated-of c c' deal price amount volume high_cmp low_cmp price_ok amount_ok volume_ok high_ok
        low_ok (ok-injective e5)
