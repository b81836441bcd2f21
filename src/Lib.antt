-- ===== src/Lib.antt =====
-- A verification library for the betting market aggregator: books of several platforms, and who is
-- told about them.
--
-- The aggregator spreads the tokens to follow over workers, each with one connection to the exchange
-- (crates/aggregator/src/supervisor.rs, crates/common/src/ws_manager.rs and
-- crates/polymarket/src/handler.rs). The normalizer turns a platform's messages into
-- `NormalizedOrderbook` values (crates/normalizer/src/schema.rs and polymarket/adapter.rs). The
-- orderbook service applies them to a store of books (crates/orderbook_service/src/store.rs and
-- orderbook.rs), answers queries on it and publishes the levels that a message names (service.rs).
-- The executor's cache keeps the best price of each
-- platform from what is published, and its router sends orders by them
-- (crates/executor/src/bbo_cache.rs and router.rs). The gateway
-- (crates/gateway/src/client.rs, subscription.rs, protocol.rs and ws_server.rs) sends what is
-- published to the clients whose patterns match the subject.
--
--   Schema          the messages and the published events of crates/normalizer/src/schema.rs
--   Normalizer      `NormalizerService` and the interface of an adapter; Json is what is used of
--                   `serde_json`, Polymarket the adapter, with Groups, Books and Parsing for proofs,
--                   and Builder the builder of the service
--   PlatformSizes   the sizes at one price, by platform (orderbook.rs)
--   Orderbook       `Orderbook`: `apply` and its steps; Queries has the queries, Response the
--                   answers built from them. View is the abstract book, a function from a side, a
--                   platform and a price to a size; Invariant, Steps, Bbo, Header, Refinement and
--                   Best have the proofs
--   Store           `OrderbookStore`: books by market and asset, cached metadata, counters; Listing
--                   has the answers on whole markets, Api the handlers of
--                   crates/orderbook_service/src/api.rs; Replay, Health and Counts have the proofs
--   Service         what `OrderbookService` does with one message and what it publishes; Published,
--                   Messages and Views have the proofs
--   Executor        the types of crates/executor/src/types.rs; BboCache, SmartRouter,
--                   Polymarket and Submission (platforms/polymarket) are the components, Api has the
--                   handlers of crates/executor/src/api.rs; Extremes,
--                   Cached, Routes, Conversions and Submission/Orders have the proofs
--   Events          events, markets and tokens of crates/external_services; Redis is the client of
--                   the store of events (redis_client.rs), Gamma that of the service they come from
--                   (polymarket/client.rs), Api the handlers of crates/event_service/src/api.rs;
--                   Redis/Laws and Refresh have the proofs
--   Commands        what a worker is told (crates/common/src/messages.rs)
--   Aggregator      `Supervisor`; Names has the identifiers of workers, Departures unsubscribing and
--                   shutdown; Offers, Placing, Spawning, Subscribing, Leaving, Capacity and
--                   Reachable have the proofs
--   Worker          the handler of a worker; Stamp puts the time of arrival into a message, and
--                   Connection is the connection manager; Commands, Inline and Backoff have the
--                   proofs
--   Subscription    subjects, patterns and their matching (subscription.rs); Matching and Subjects
--                   have the proofs
--   Registry        `ClientRegistry` of client.rs and its indexes; Routing and Clients have the
--                   queries, Stale the cleanup of idle clients and its proof; Index, Consistency,
--                   Leaving, Reachable and Fanout have the proofs
--   Gateway         the messages of protocol.rs and the handling of a client's message in
--                   ws_server.rs; Answers and Keeps have the proofs. Router is `ChangeRouter` of
--                   router.rs, with Recipients, Snapshots and Served for proofs
--   Reply           the answers of the HTTP interfaces
--   Decimal         what the code uses of `rust_decimal`, as a record of operations and laws
--   DashMap         what the code uses of the `dashmap` crate, likewise; Local is an instance
--   HashMap         `std::collections::HashMap` as an association list
--   OrderedMap      `std::collections::BTreeMap` with decimal keys, as a list in order
--   Text            `str::split` and `str::contains` on native texts
--   Prelude         shared notation, lists, equality and integers
--   Example         concrete books, stores, orders and registries, at which the theorems are applied
--
-- A method that changes `self` is a function from the state to the state after it, and keeps its
-- name. A shared map of the code is a value of the state; every call of it is atomic, so a
-- run is a sequence of calls. Loops are recursion on the list they run over, so that none needs
-- fuel, but for the loop of the supervisor that starts workers: it runs on fuel, and the number of
-- identifiers to place is enough where a worker may have one at least. Counters of type u64 are
-- kept modulo 2^64. Signed timestamps are integers, whose bounds no operation here reaches. A call that
-- waits for ever has no result where the code itself makes it wait (the executor's cache, BboCache).
-- Otherwise the model is of calls that return: no sum of decimals is out of range, on which
-- `rust_decimal` panics, and every send of a command to a worker returns, with success or an error.
--
-- Code of other packages is a parameter: `rust_decimal`, `dashmap`, `serde_json` with the decoders
-- that it derives, Redis, the SDK of the exchange, HTTP and the printing of numbers. Whether a
-- message can be sent, what a connection meets and what the clock shows are inputs.
--
-- Not modelled: the routes of the HTTP servers, the WebSocket server, NATS, logging, metrics and
-- start-up, which are input and output; and the handshake of a connection.
pub mod Prelude
pub mod Decimal
pub mod HashMap
pub mod OrderedMap
pub mod Text
pub mod Schema
pub mod PlatformSizes
pub mod Normalizer
pub mod Orderbook
pub mod Reply
pub mod Response
pub mod DashMap
pub mod Subscription
pub mod Registry
pub mod Store
pub mod Executor
pub mod Events
pub mod Commands
pub mod Aggregator
pub mod Worker
pub mod Service
pub mod Gateway
pub mod Example
