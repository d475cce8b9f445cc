-- ===== src/Store.antt =====
-- The database tables of Server/src/db/schema.ts, the Redis stream `order_commands` of
-- Server/src/redis.ts, and the state-and-exception monad in which the services run. Identifiers and
-- symbols are only compared, so they are numbers; amounts are the texts that the driver hands over.
pub mod Monad
pub mod Rows
pub mod Numeric
pub mod Session
pub mod Exact
pub mod Sample
use perpetual_futures_exchan.Prelude.{ℕ, Bool, true, false, Option, List}
use perpetual_futures_exchan.Prelude.Int.{ℤ}
use perpetual_futures_exchan.Decimal.{DecStr}

pub data Role : Type 0 where
  user admin : Role

pub data KycStatus : Type 0 where
  not_started pending approved rejected : KycStatus

pub data AssetType : Type 0 where
  crypto fiat : AssetType

pub data MarketStatus : Type 0 where
  active paused : MarketStatus

pub data OrderType : Type 0 where
  market limit : OrderType

pub data Side : Type 0 where
  buy sell : Side

-- `open` is `opened`.
pub data OrderStatus : Type 0 where
  pending opened partially_filled filled canceled rejected expired : OrderStatus

pub data TimeInForce : Type 0 where
  gtc ioc fok : TimeInForce

pub data MarginMode : Type 0 where
  isolated cross : MarginMode

pub data PositionSide : Type 0 where
  long short : PositionSide

pub data PositionStatus : Type 0 where
  opened closed liquidated : PositionStatus

pub record Asset : Type 0 where
  pub id : ℕ
  pub symbol : ℕ
  pub name : ℕ
  pub asset_type : AssetType
  pub precision : ℕ
  pub min_withdraw : DecStr
  pub is_collateral : Bool
  pub created_at : ℕ

-- The integer columns that go through `D` are the texts `String(v)`.
pub record Market : Type 0 where
  pub id : ℕ
  pub symbol : ℕ
  pub base_asset_id : ℕ
  pub quote_asset_id : ℕ
  pub status : MarketStatus
  pub tick_size : DecStr
  pub step_size : DecStr
  pub min_order_size : DecStr
  pub max_order_size : DecStr
  pub max_leverage : DecStr
  pub initial_margin_rate : DecStr
  pub maintenance_margin_rate : DecStr
  pub maker_fee_bps : DecStr
  pub taker_fee_bps : DecStr
  pub funding_interval_hours : ℕ
  pub created_at : ℕ

pub record Balance : Type 0 where
  pub id : ℕ
  pub user_id : ℕ
  pub asset_id : ℕ
  pub available_balance : DecStr
  pub locked_balance : DecStr
  pub updated_at : ℕ

pub record Order : Type 0 where
  pub id : ℕ
  pub user_id : ℕ
  pub market_id : ℕ
  pub client_order_id : Option ℕ
  pub order_type : OrderType
  pub side : Side
  pub price : Option DecStr
  pub quantity : DecStr
  pub filled_quantity : DecStr
  pub status : OrderStatus
  pub reduce_only : Bool
  pub post_only : Bool
  pub time_in_force : TimeInForce
  pub leverage : DecStr
  pub margin_mode : MarginMode
  pub created_at : ℕ
  pub updated_at : ℕ
  pub executed_at : Option ℕ

pub record Fill : Type 0 where
  pub id : ℕ
  pub market_id : ℕ
  pub maker_order_id : ℕ
  pub taker_order_id : ℕ
  pub maker_user_id : ℕ
  pub taker_user_id : ℕ
  pub side : Side
  pub price : DecStr
  pub quantity : DecStr
  pub maker_fee : DecStr
  pub taker_fee : DecStr
  pub created_at : ℕ

pub record Position : Type 0 where
  pub id : ℕ
  pub user_id : ℕ
  pub market_id : ℕ
  pub side : PositionSide
  pub quantity : DecStr
  pub entry_price : DecStr
  pub mark_price : DecStr
  pub liquidation_price : DecStr
  pub margin : DecStr
  pub leverage : ℤ
  pub margin_mode : MarginMode
  pub realized_pnl : DecStr
  pub status : PositionStatus
  pub opened_at : ℕ
  pub closed_at : Option ℕ

-- The payload of a `PLACE_ORDER` command.
pub record OrderCommand : Type 0 where
  pub order_id : ℕ
  pub user_id : ℕ
  pub market : ℕ
  pub side : Side
  pub order_type : OrderType
  pub price : Option DecStr
  pub quantity : DecStr
  pub time_in_force : TimeInForce
  pub reduce_only : Bool
  pub post_only : Bool
  pub client_order_id : Option ℕ
  pub leverage : DecStr
  pub margin_mode : MarginMode
  pub sequence : ℕ
  pub timestamp : ℕ

pub data EventType : Type 0 where
  order_created other_event : EventType

pub record OutboxEvent : Type 0 where
  pub id : ℕ
  pub event_type : EventType
  pub aggregate_id : Option ℕ
  pub payload : OrderCommand
  pub created_at : ℕ
  pub published_at : Option ℕ

-- An entry of the stream `order_commands`.
pub data Command : Type 0 where
  place_order : OrderCommand → Command
  cancel_order : (order_id market user_id : ℕ) → Command
  close_position : (order_id user_id market : ℕ) → Side → (quantity : DecStr) → MarginMode → Command

-- What an operation reads and writes: the tables, the stream (oldest entry first), whether Redis takes
-- commands, the next identifier that the database or `uuidv4` gives out, and the clock in
-- milliseconds, which stands still during an operation.
pub record Db : Type 0 where
  pub assets : List Asset
  pub markets : List Market
  pub balances : List Balance
  pub orders : List Order
  pub fills : List Fill
  pub positions : List Position
  pub outbox : List OutboxEvent
  pub commands : List Command
  -- Whether Redis accepts commands, or answers with an error.
  pub redis_up : Bool
  pub next_id : ℕ
  pub clock : ℕ
