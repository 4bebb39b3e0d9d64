-- ===== src/Lib.antt =====
-- Verification of the OHLCV service: the open, high, low, close and volume of the deals of each
-- market, by resolution. Paths are from the repository's root.
--
-- The parts and how they interact. A deal arrives from the matcher and updates the running candles
-- of its market (currentCandles.AddDeal); every minute a cron job refreshes all of them (refreshAll);
-- at the start they are filled from the deals in Mongo (initCurrentCandles, over
-- Service.GetCurrentCandle). Whatever changes a candle sends it on a channel, from which
-- listenCurrentCandlesUpdates makes charts of one point; Microbatching gathers these into batches, and
-- the broadcaster sends each chart of a batch to the channel of its market and resolution. Each deal
-- is also validated and stored in Mongo (SaveDeal), and those that are stored go through a channel to
-- the streams of SubscribeDeals; a cache of tickers is loaded from Mongo every second (LoadCache) and
-- told of each deal. The HTTP handler of the charts, the public API and the gRPC server answer from
-- Mongo and from that cache. The names of the markets come from another service, through the client
-- of client/market.
--
-- Files and code.
--   Time, Time/Calendar: what is used of Go's package time. A time is its nanoseconds from the year 1,
--     and time.Local is UTC. Unix seconds and nanoseconds are integers, where they fit an int64. Times
--     before the year 1, and times that wrap in Go, are not modelled: from_unix and truncate_interval
--     stop at the year 1.
--   Resolution/Names, /Duration, /Units: internal/model/resolution.go. A switch on a resolution is by
--     `named`, the constant that the text equals.
--   Decimal, Decimal/Compare: compareDecimal128 and addPrimitiveDecimal128 of candle/aggregator.go, over
--     the record `Decimals` of what the two decimal packages answer.
--   Candle: domain/сandle.go, but for MakeChartResponse, which is in Service.
--   Start, Start/Week, Start/Bounds: GetResolutionStartTimestampByTime of candle/aggregator.go and the
--     helpers under it.
--   Aggregate: the rest of candle/aggregator.go. The map of buckets is an association list, and the
--     order in which a range takes it is a parameter.
--   Current: candle/current_candles.go. Table has the map of maps with getSafeCandle and setSafeCandle;
--     the state is that map and the list of all that has been sent. Each operation holds the lock from
--     end to end and is one step.
--   Batch: domain/microbatching.go. Batch/Stream has the goroutine as a step relation at its selects.
--   Service: candle/candle.go and candle/storage.go, over Mongo as a function from queries to answers;
--     Service/Pipeline has the pipeline that is made of a query.
--   Startup: initCurrentCandles and listenCurrentCandlesUpdates of cmd/consumer/main.go, and
--     GetAvailableMarketsMap of domain/market.go. Startup/Listing: buildAvailableMarkets.
--     Startup/Process: the rounds of initCurrentCandles, AddDeal and refreshAll in any order.
--   Broadcast: the channels and the messages of infra/centrifuge/broadcaster.go. Updates: its
--     SubscribeForCharts, BatchPublish of infra/centrifuge/centrifuge.go, and the publishing of the
--     batches in cmd/consumer/main.go; Updates/Arrival and /Whole put Startup/Process, Batch,
--     Events and Broadcast together.
--   Collections: the making of the collections in infra/mongo/mongo.go.
--   Requests: api/http/handler/candle.go; truncateInterval, and in Requests/Chart GetCandleChart.
--   Deals: Validate of internal/model/deal.go and SaveDeal of internal/service/deal.go.
--   Consuming: the handler of RunConsuming and a tick of LoadCache, of internal/service/deal.go.
--   Bson: the values that the Mongo driver sends and receives.
--   Statistics, Trades: internal/repository/deal.go, the pipelines as values of Bson and the reading of
--     what Mongo answers, with every type assertion.
--   Stored: internal/repository/candle.go and kline.go, with their models.
--   Subscriptions: SubscribeDeals of internal/server/ohlcv.go as a step relation at its select, beside
--     the consumer; Subscriptions/Spec is the queue that it is meant to be.
--   Server: the other calls of internal/server/ohlcv.go.
--   Api: api/generated/go/api_market_service.go, which is written by hand in a generated folder, with
--     the controllers and routes of api_market.go, and NewRouter and parseInt32Parameter of routers.go.
--   Markets: client/market, and NormalizeMarketName of domain/market.go.
--   Text: what is used of Go's strings and strconv, over sequences of code points.
--   Consumers: internal/consumer, and GetTickerPriceChangeStatistics of internal/service/deal.go.
--   Events: infra/broker/events_inmemory.go; Events/Meta: domain/event.go.
--   Example: decimals, candles and charts on which the theorems are applied.
--   Base: the library's names, tests, integers, lists, maps and results that all parts share.
--
-- Bounds and fuel. firstDayOfISOWeek has three loops: at most 6 days back to a Monday, 42 days on to
-- the first week and 371 days on to the given week are enough, as a year has at most 53 weeks. Every
-- other loop is structural.
--
-- Parameters. Decimals, floats, what Mongo and the server of the markets answer, the parsing of
-- JSON, of URLs and of messages, json.Marshal, strconv.Quote, the clock and the order of a range over a
-- map are arguments of the definitions that use them. Assumed of Mongo are that Find answers no more
-- documents than its limit, that InsertOne has stored nothing when it answers an error, that a
-- collection which has been created is among those that are listed, and that making an index changes
-- no list. Assumed of Centrifugo's client is that AddPublish accepts every message.
--
-- Not modelled: the clients of Kafka, Mongo and Centrifugo and their configuration; the deadlines of
-- queries; the headers of responses; what Mongo makes of a pipeline; generated code; logging. A send
-- on the channel of updates after it has been closed, which panics, is not modelled.
pub mod Base
pub mod Text
pub mod Time
pub mod Resolution
pub mod Decimal
pub mod Markets
pub mod Bson
pub mod Candle
pub mod Start
pub mod Current
pub mod Aggregate
pub mod Batch
pub mod Service
pub mod Startup
pub mod Broadcast
pub mod Requests
pub mod Deals
pub mod Consumers
pub mod Statistics
pub mod Trades
pub mod Updates
pub mod Consuming
pub mod Subscriptions
pub mod Api
pub mod Stored
pub mod Server
pub mod Collections
pub mod Events
pub mod Example
