-- ===== src/Resolution.antt =====
-- internal/model/resolution.go: the candle resolutions. A Resolution is its text, as in the source,
-- and `named` says which of the declared constants a switch or a map literal meets first.
pub mod Names
pub mod Duration
pub mod Units
