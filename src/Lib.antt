-- ===== src/Lib.antt =====
-- uvipystock is a sandbox of a crypto exchange: services over PostgreSQL place orders and lock
-- balances, Redis holds the book, the stop queues and the queue of orders, a worker feeds a Cython
-- matcher and persists its trades, and a monitor triggers stop orders. This library models that
-- core from backend/app; the copy of it under frontend/backend differs in a few files only.
--
-- The parts, and the files that model them:
--   Enums, Model       models/*.py: rows as records; the tables, the id sequence and the log of Redis
--                      commands are the record World.
--   Exec               a service method: World to a result and a World; `transaction` is
--                      `session.begin()`, which restores the tables, not what Redis was sent.
--   Redis              redis_client/*.py: the writes as a log of commands (Redis/Commands,
--                      Redis/Payload), the score of a resting order (Redis/Score), the queue of
--                      orders (Redis/Queues), and the indexes of open orders (Redis/Index).
--   Balance            repositories/balance_repo.py (Balance/Repo), services/balance_service.py
--                      (Balance/Service, Balance/Pessimistic) and two methods of
--                      services/admin_service.py.
--   Orders             repositories/order_repo.py (Orders/Repo) and services/order_service.py:
--                      validation and locks (Orders/Validate), placement (Orders/Place),
--                      cancellation (Orders/Cancel), modification (Orders/Modify), and bulk
--                      placement (Orders/Bulk).
--   Trade              services/trade_service.py (Trade/Fills, Trade/Service).
--   Engine             matching/engine.pyx: one side of the book (Engine/Book), the matching loops
--                      (Engine/Match), and the doubles that both add and subtract (Engine/Double).
--   Worker             matching/_bridge.py (Worker/Bridge) and matching/worker.py (Worker/Place), and the
--                      makers that it reads through redis_client/orderbook.py (Worker/Book), from
--                      the HASHes that the services' commands leave (Worker/Hashes).
--   Stops              redis_client/stops.py (Stops/Queue, Stops/Trailing) and
--                      services/stop_monitor_service.py (Stops/Monitor).
--   RateLimit          redis_client/rate_limit.py and core/rate_limit.py (RateLimit/Window), and
--                      requests of one key that overlap (RateLimit/Race).
--   Api                core/exceptions.py (Api/Errors), schemas/order.py (Api/Schema), the routes of
--                      api/v1/orders.py that change orders (Api/Endpoints), and api/deps.py with the
--                      signature check of core/security.py (Api/Auth).
--   Gateway            ws/manager.py (Gateway/Manager), and the handshake of ws/private.py
--                      (Gateway/Private).
--   Market             what is shown of the market: the candles of api/v1/trades.py (Market/Candles), and
--                      the best prices and levels of redis_client/orderbook.py (Market/Depth).
--   Records            what every service keeps of the tables: rules for the parts of a method
--                      (Records/Rules), and any calls one after the other (Records/History).
--   Frontend           frontend/backend/app, where the copy differs: the lock of a market buy
--                      (Frontend/Lock) and the HASH of a maker that is filled (Frontend/Makers).
--   Tests              runs on concrete input.
-- The other files of these folders hold the lemmas and theorems. Engine/Priority holds what
-- matching is to mean, a walk over a list of offers, and RateLimit/Log what the limiter is to mean,
-- a log of the requests that is never cut.
--
-- How they interact: order_service locks through balance_service, inserts rows, and sends commands;
-- the worker takes a queue item, loads makers into a fresh engine, matches, and calls trade_service
-- in a transaction; a route turns a body into the service's input, commits or rolls back, and maps
-- an error to its status; the monitor converts a stop into a child order and sends it the same way.
-- A read from Redis is an argument of the function that makes it. Where the order of commands
-- counts, Redis is an interface with the laws that it documents: a sorted set with ZRANGEBYSCORE
-- (Stops/Queue), a list with LPUSH and BRPOP (Redis/Queues), sets (Redis/Index), and a set of times
-- with the commands of the limiter (RateLimit/Window). HMAC and the parsing of a number are
-- arguments of the authentication, the conversion of an integer to a double is an argument that is
-- exact up to 2^53 (Redis/Score), and the worker's conversions between decimals and doubles are an
-- interface (Worker/Bridge).
--
-- Numbers: decimals are natural numbers of units of 10^-18; a product is exact and is rounded half up
-- to that scale, as the column does. The matcher's doubles are natural numbers of a unit that is a
-- power of two, and every sum and difference is rounded to 53 bits, half to even. Where quantities
-- are whole numbers below 2^53 of that unit nothing is rounded; the theorems that add quantities up
-- say so. A total balance and a trailing trigger have a sign. Symbols, assets and user ids are
-- numbers.
--
-- Bounds and fuel: a lock is tried three times, as in the source; what other transactions commit
-- between the read and the update of an attempt is an argument. The loop over a level runs on fuel
-- of twice its nodes and one, since an iceberg takes at most two rounds; the trade buffer holds
-- 1,024 trades and the node pool 100,000 nodes, as in the source.
--
-- Not modelled: routes that only list rows, administrators' tokens, the loops of the WebSocket
-- gateway, sessions and configuration, the lengths of texts in a body, the loops that wait on Redis,
-- fees (zero in the source), timestamps of rows, the rounding of doubles in candles, levels and
-- trailing triggers, infinite doubles, browser code, and of the copy under frontend its
-- cancellation, its refund test and what it repeats.
pub mod Prelude
pub mod Enums
pub mod Model
pub mod Redis
pub mod Exec
pub mod Balance
pub mod Orders
pub mod Trade
pub mod Engine
pub mod Stops
pub mod Worker
pub mod RateLimit
pub mod Api
pub mod Gateway
pub mod Market
pub mod Records
pub mod Frontend
pub mod Tests
