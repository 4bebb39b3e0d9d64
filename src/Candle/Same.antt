-- ===== src/Candle/Same.antt =====
-- Go's == on candles is equality, when == on the decimals is.
use ohlcv.Base.{◌≡◌, ◌↔◌, Bool, true, arith, eq_iff}
use ohlcv.Candle.{Candle, same_candle}

module _ {D : Type 0} (same : D → D → Bool)
    (same_iff : (a b : D) → (same a b ≡ true) ↔ (a ≡ b)) where
  -- Go's == answers true on two candles exactly when they are equal, if it does on their decimals.
  pub same_candle_iff : (a b : Candle D) → (same_candle same a b ≡ true) ↔ (a ≡ b)
  unfolding same_candle
  same_candle_iff a b = ground (
    arith,
    eq_iff a.symbol b.symbol,
    eq_iff a.resolution b.resolution,
    same_iff a.opening b.opening,
    same_iff a.high b.high,
    same_iff a.low b.low,
    same_iff a.closing b.closing,
    same_iff a.volume b.volume,
  )
