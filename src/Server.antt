-- ===== src/Server.antt =====
-- internal/server/ohlcv.go, but for SubscribeDeals, which is in Subscriptions: the answers of the gRPC
-- server.
pub mod Answers
use ohlcv.Base.{
  ℕ, ◌+◌, ◌*◌, Bool, String, List, [], ◌∷◌, ℤ, pos, negsuc, scale, int32_of, Result, ok, err,
}
use ohlcv.Decimal.{Decimals}
use ohlcv.Bson.{Bson}
use ohlcv.Deals.{StoredDeal}
use ohlcv.Trades.{FindQuery, get_last_trades}
use ohlcv.Consumers.{TickerStatistics, Ticker, get_ticker_price_change_statistics}
use ohlcv.Stored.{MinuteCandle, Kline, generate_minute_candles, get_klines}

-- Candle, Kline, Trade and Ticker of the protocol. A timestamp is the time that timestamppb.New is
-- given, in Unix nanoseconds.
pub record CandleMessage : Type 0 where
  pub opening : String
  pub high : String
  pub low : String
  pub closing : String
  pub symbol : String
  pub volume : String
  pub open_time : ℤ

pub record KlineMessage : Type 0 where
  pub opening : String
  pub high : String
  pub low : String
  pub closing : String
  pub symbol : String
  pub volume : String
  pub quotes : String
  pub open_time : ℤ
  pub close_time : ℤ
  pub trades : ℤ
  pub taker_quotes : String
  pub taker_assets : String
  pub first : ℤ
  pub last : ℤ

pub record TradeMessage : Type 0 where
  pub id : String
  pub price : String
  pub qty : String
  pub quote_qty : String
  pub time : ℤ
  pub is_buyer_maker : Bool

-- Time().UnixNano() of a primitive.DateTime.
unfoldable pub unix_nano_of : ℤ → ℤ
unix_nano_of t = scale t 1_000_000

-- The messages of the loops.
module _ {D S : Type 0} (dec : Decimals D S) where
  unfoldable pub candle_message : MinuteCandle D → CandleMessage
  candle_message c = record {
    opening = dec.to_text c.opening;
    high = dec.to_text c.high;
    low = dec.to_text c.low;
    closing = dec.to_text c.closing;
    symbol = c.symbol;
    volume = dec.to_text c.volume;
    open_time = c.open_time;
  }

  unfoldable pub kline_message : Kline D → KlineMessage
  kline_message k = record {
    opening = dec.to_text k.opening;
    high = dec.to_text k.high;
    low = dec.to_text k.low;
    closing = dec.to_text k.closing;
    symbol = k.symbol;
    volume = dec.to_text k.volume;
    quotes = dec.to_text k.quotes;
    open_time = k.open_time;
    close_time = k.close_time;
    trades = int32_of k.trades;
    taker_quotes = dec.to_text k.taker_quotes;
    taker_assets = dec.to_text k.taker_assets;
    first = k.first;
    last = k.last;
  }

  unfoldable pub trade_message : StoredDeal D → TradeMessage
  unfolding unix_nano_of
  trade_message d = record {
    id = d.deal_data.deal_id;
    price = dec.to_text d.deal_data.price;
    qty = dec.to_text d.deal_data.volume;
    quote_qty = dec.to_text d.deal_data.volume;
    time = unix_nano_of d.t;
    is_buyer_maker = d.deal_data.is_buyer_maker;
  }

-- The message of a ticker has the fields of the statistics.
unfoldable pub ticker_message : TickerStatistics → TickerStatistics
ticker_message s = record s { count = int32_of s.count }

-- `rsp.X[i] = f(xs[i])` over a slice of as many places.
unfoldable pub each : {A B : Type 0} → (A → B) → List A → List B
each f [] = []
each f (x ∷ xs) = f x ∷ each f xs

unfoldable pub answer_each : {A B : Type 0} → (A → B) → Result (List A) → Result (List B)
unfolding each
answer_each f (err e) = err e
answer_each f (ok xs) = ok (each f xs)

module _ {D S F : Type 0} (dec : Decimals D S) where
  unfoldable pub generate_minutes_candle :
      (List (Bson D F) → Result (Result (List (MinuteCandle D))))
      → ℤ
      → ℤ
      → Result (List CandleMessage)
  unfolding answer_each candle_message
  generate_minutes_candle aggregate from to =
      answer_each (candle_message dec) (generate_minute_candles aggregate from to)

  unfoldable pub generate_minutes_klines :
      (List (Bson D F) → Result (Result (List (Kline D)))) → ℤ → ℤ → Result (List KlineMessage)
  unfolding answer_each kline_message
  generate_minutes_klines aggregate from to =
      answer_each (kline_message dec) (get_klines aggregate from to)

  unfoldable pub last_trades :
      (FindQuery D F → Result (List (StoredDeal D))) → String → ℤ → Result (List TradeMessage)
  unfolding answer_each trade_message
  last_trades find symbol limit =
      answer_each (trade_message dec) (get_last_trades find symbol limit)

-- GetTicker, whose service answers no error.
unfoldable pub get_ticker : List String → String → Ticker → Result (List TickerStatistics)
unfolding answer_each ticker_message
get_ticker markets symbol c =
    answer_each ticker_message (ok (get_ticker_price_change_statistics markets symbol c))
