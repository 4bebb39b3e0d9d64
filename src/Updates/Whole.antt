-- ===== src/Updates/Whole.antt =====
-- From the operations of the process on the running candles to Centrifugo.
use ohlcv.Base.{◌≡◌, String, some, Assoc, lookup}
use ohlcv.Candle.{Candle}
use ohlcv.Startup.Symbols.{IsNamed}
use ohlcv.Startup.Process

-- No market of the map has an empty name, or the identifier of a market of another name as its name.
abbrev pub AreDistinct : Assoc String → Type 0
AreDistinct names = (id name : String) → lookup id names ≡ some name → IsNamed names id name
