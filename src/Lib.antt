-- ===== src/Lib.antt =====
-- The server side of a perpetual-futures exchange: users place and cancel orders, whose margin is
-- locked in their balances; each order goes to the matching engine as a command on a Redis stream,
-- with an outbox row in PostgreSQL that survives a crash in between; what the engine did comes back as
-- events. All amounts are texts, computed on by a small big-decimal class. Modelled is the TypeScript
-- of Server/src, and of market_maker/src what sends orders to the same stream.
--
-- The files, and the code that each is about:
--   Prelude     tests into Bool, lists, integers, powers of ten: what the other files share.
--   Text        the string operations of Server/src/utils/big.ts (trim, split, replace, slice,
--               padStart, BigInt of a text, toString of a bigint) on lists of character codes.
--   Big         Server/src/utils/big.ts: the class Big. A number is `value`, `decimals`, `negative`;
--               bigint has no bound, so the naturals are exact. Parse, Print: constructor and
--               toString; Scaled: fromScaled; Arith: plus, minus, times, div; Order: comparisons.
--   Decimal     Server/src/utils/decimal.ts: the same on texts. `amount k t` is the value of the text t
--               in units of the k-th decimal place, the measure that all specifications use.
--   Store       Server/src/db/schema.ts: the tables, as lists of records in a `Db`, with the Redis
--               stream `order_commands`. Monad: an operation takes a Db to a result and a Db; a throw
--               keeps what was written, unless `transaction` takes it back. Rows: select and update.
--               Numeric: PostgreSQL's numeric(30,8) columns, a parameter, with their documented
--               behaviour as `IsPostgres`; Exact: a database that meets it.
--   Balance     Server/src/services/balanceService.ts (getOrCreateBalance, listUserBalances, deposit,
--               withdraw, lockBalance, unlockBalance, debitLocked). Table, Moved: the ledger invariant
--               and what a change of one row does to the whole; Lock, Release: the specifications.
--   Orders      Server/src/services/orderService.ts (placeOrder, listUserOrders, getOrderById,
--               cancelOrder, cancelAllOpenOrders). Place: the checks; Publish, Submit: lock, insert,
--               outbox, stream; Idempotent: a repeated request; Canceled: cancelling.
--   Outbox      Server/src/workers/outboxWorker.ts (publishOutboxBatch). Batch: what a batch does;
--               Recovery: how it makes up for a command that Redis refused in placeOrder.
--   DbWriter    Server/src/workers/dbWriter.ts (applyTradeToOrder, handleOrderAccepted,
--               unlockOrderMargin, handleOrderRejected, handleOrderFilled, handleOrderCanceled).
--               Release, Events: what the events do to margin and orders; Fills: applyTradeToOrder.
--               Positions: upsertPosition, with its specification by exposures in Follow.
--               Credit, Trade: handleTradeExecuted, with creditAvailable and debitAvailable. Its
--               transaction runs debitLocked and applyTradeToOrder on other connections, for which
--               Store.Session has two versions of the tables, the balances that the transaction has
--               written, and the answer `waits`. Together, Agree, InOrder: the same trade on one
--               connection, and that the two agree; Leftover: what a trade that fails leaves behind.
--               Messages: handleOrderBookUpdated, handleMessage with publishEngineEvent of
--               Server/src/kafka.ts, the chain of startDbWriter, and getOrderbookFromRedis of
--               Server/src/services/marketService.ts, which reads the snapshots.
--   MarkPrices  Server/src/workers/markPriceUpdater.ts (one tick of startMarkPriceUpdater,
--               parseMarkPriceData, updateMarkPrices). Fresh: which mark prices a tick can write.
--   Positions   Server/src/routes/positions.ts (GET /, GET /:id, POST /:id/close). Close: the order
--               that closes a position, on every branch.
--   Auth        Server/src/services/authService.ts (registerUser, loginUser, getUserById) on the table
--               users; bcrypt and the token library are parameters. Login: who can log in.
--   Markets     Server/src/services/marketService.ts (listMarkets, getMarketBySymbol, getRecentTrades,
--               getTicker24h). Ticker: what the ticker says.
--   BinanceFeed  market_maker/src/binance/binanceFeed.ts (the class BinanceFeed): what it keeps of the
--               prices; which messages count is in MarketMaker, which has the callbacks.
--   MakerState, MarketMaker  market_maker/src/index.ts (the class MarketMaker): its state, and a step
--               function on events; what runs between two awaits is a step.
--               Cases: what a step can have done; Shutdown: an invariant of all runs; Rounds: the
--               quotes after a shutdown has begun.
--   Injector    market_maker/src/liquidity/directOrderInjector.ts (the class DirectOrderInjector): the
--               orders of the external liquidity provider. Sync: active orders against the quote.
--   OrderManager  market_maker/src/orders/orderManager.ts (the class OrderManager).
--               Reconcile: what it knows after reconcile; Tracking: after updateQuotes.
--
-- Conventions. Identifiers, symbols, client order ids and the clock are naturals, since the code only
-- compares them; an empty client order id is none. `Js.number_text` is `Number(s).toString()`, used by
-- the constructor of Big on a text with an exponent, and a parameter. Operations run one at a time: the
-- row locks (`for update`) of the balance service are what makes its transactions so. Identifiers that
-- the database or `uuidv4` gives out come from one counter, `next_id`; the clock stands still within an
-- operation. Inserts and updates that return no row cannot happen here, apart from an update by id
-- that matches none. `redis_up` says whether Redis accepts commands or answers with an error; the
-- endless retries of a client that cannot reach it (maxRetriesPerRequest is null) are left out. The
-- outbox is read in the order of its rows. No insert is refused by the unique index on client order
-- ids, which placeOrder looks up first.
--
-- Bounds and fuel. Only the printing of a number counts on fuel, `suc n` for the number n, which has at
-- most that many digits. All else recurs on its lists.
--
-- Not modelled: the matching engine (Engine, C++), the other HTTP routes (Server/src/routes) but for the
-- status of each error, ensureExternalUser (the users are not among these tables; the row that it
-- adds before a trade is not seen here), the parsing of messages, the authentication of requests,
-- seeding, the market maker's sockets, HTTP client and floating-point quoting, and the bots.
pub mod Prelude
pub mod Text
pub mod Big
pub mod Decimal
pub mod Store
pub mod Balance
pub mod Orders
pub mod Outbox
pub mod DbWriter
pub mod MarkPrices
pub mod Positions
pub mod Auth
pub mod Markets
pub mod BinanceFeed
pub mod MakerState
pub mod MarketMaker
pub mod Injector
pub mod OrderManager
