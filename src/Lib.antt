-- ===== src/Lib.antt =====
-- A model of the crate exchange_apiws, a client of cryptocurrency exchanges over REST and WebSocket.
--
-- The parts, and how they interact. A connector (src/*/ws.rs, src/ws/feed.rs) knows one exchange's
-- frames. The runner (src/ws/runner.rs) keeps a connection to it: a session sends the subscriptions
-- and hands what the connector parses to the caller, a reconnect loop starts one session after
-- another, and a supervisor asks for a new endpoint when the loop gives up. The caller may keep a
-- local order book (src/book.rs) from the book messages. Requests go through the HTTP helpers
-- (src/http.rs) and the signed KuCoin client (src/client.rs), whose errors (src/error.rs) say whether
-- a caller may retry; the order methods (src/rest/orders.rs) build bodies for that client.
--
-- The files:
--   Prelude   shared names; sorted association lists (a `BTreeMap`), text as bytes, integers, and the
--             interface of the floating-point operations that the book uses
--   Error     src/error.rs: ExchangeError, is_retriable, classify, classify_submit
--   Types     src/types.rs: Side, OrderType, TimeInForce, STP; Candle is Candle::from_raw
--   Book      src/book.rs: LocalOrderBook, apply, apply_levels, best_bid, snapshot; OrderBookData is
--             the record of src/actors.rs
--   Runner    src/ws/runner.rs: Guard is WsMsgGuard, Config is WsRunnerConfig and the backoff, Feed is
--             run_feed, Session is single_session, Supervisor is run_feed_supervised
--   Http      src/http.rs: percent_encode, build_query_string; Retry is send_with_retry and
--             PublicRestClient::get, and execute_with_retries and unwrap_envelope of src/client.rs
--   Orders    src/rest/orders.rs: the bodies of orders, OrderDetail, calc_contracts
--   WsOrders  src/ws/orders.rs: WsOrderClient and its two tasks; Run is the relation of their steps,
--             Stranded follows one call past the end of the reader, Inbound is parse_inbound
--   Actors    src/actors.rs: DataMessage and the messages that it holds
--   Kucoin    src/ws/feed.rs: KucoinConnector; Fields and Parse are its helpers and parsers; the frame
--             of src/ws/types.rs and the environments of src/connectors.rs
--   Streams   parse_message of src/okx/ws.rs, src/bybit/ws.rs, src/binance/ws.rs, src/coinbase/ws.rs,
--             src/cryptocom/ws.rs and src/kraken/ws.rs; Chains feeds what they parse to the book
--   Connect   the constructors, configurations and subscriptions of the same connectors, and
--             WebSocketConfig of src/actors.rs
--   Private   parse_message of src/bybit/private_ws.rs, src/binance/private_ws.rs and
--             src/cryptocom/private_ws.rs; Vocabulary is the words for the state of an order
--   Envelope  the envelopes of REST replies of src/kraken/rest.rs, src/bybit/rest.rs and
--             src/cryptocom/rest.rs
--   Clients   the signed REST clients: what they share with send_with_retry here, Kraken and Cryptocom
--             are src/kraken/private.rs and src/cryptocom/private.rs, Bybit is src/bybit/private.rs,
--             Binance is src/binance/signed_rest.rs and src/binance/private_rest.rs
--   Rest      the public clients of src/kraken/rest.rs, src/bybit/rest.rs, src/binance/rest.rs and
--             src/cryptocom/rest.rs: requests, decoders and conversions
--   Market    fetch_klines_extended and the clock offset of src/rest/market.rs, skewed_timestamp_ms of
--             src/auth.rs
--   Signing   the texts that src/auth.rs, src/kraken/auth.rs, src/bybit/auth.rs and
--             src/cryptocom/auth.rs sign
--   Nonce     next_nonce of src/kraken/private.rs and src/cryptocom/private.rs
--
-- Conventions. Numbers are naturals with the wrap-around of their width where the source has one:
-- `+ 1` on a u32 or u64 wraps, as in a release build. Clocks, replies, frames, and the ends of
-- sessions are lists given as input, and what the code does (sleeps, writes, events, calls of a
-- closure) is a list returned. A loop is a recursion on such a list, and answers `pending` when the
-- list is used up before the code has returned; a list that is long enough is stated for each loop
-- that must end. The floating-point type is a parameter with the total order of `f64::total_cmp`;
-- JSON decoding, UUIDs and the socket are parameters.
--
-- JSON values are an interface (Prelude/Json) of what the code calls of serde_json; the runs in Tests
-- use trees (Prelude/Values). A parser reads the clock once or twice, and the readings are arguments.
--
-- Not modelled: the KuCoin REST endpoints that only build a path and call the client, the JSON text of
-- order and authentication frames, the hashes of signatures, TLS and logging. A delay is recorded by the
-- attempt that it follows, since its jitter comes from the clock.
pub mod Prelude
pub mod Error
pub mod Types
pub mod Book
pub mod Runner
pub mod Http
pub mod Orders
pub mod Nonce
pub mod WsOrders
pub mod Actors
pub mod Kucoin
pub mod Streams
pub mod Market
pub mod Signing
pub mod Private
pub mod Envelope
pub mod Clients
pub mod Rest
pub mod Connect
