-- ===== src/Injector.antt =====
-- market_maker/src/liquidity/directOrderInjector.ts: orders of the external liquidity provider, sent
-- to the engine's stream without the database. Each of the two Maps from a price to an order is the
-- list of its values, in insertion order; an order's price is its key.
pub mod Sync
mod Tests
use perpetual_futures_exchan.Prelude.{
  ℕ, suc, Bool, true, false, ◌&&◌, List, [], ◌∷◌, ◌++◌, ◌==◌, if◌then◌else◌, length, ◌+◌,
}
use perpetual_futures_exchan.Text.{Text}
use perpetual_futures_exchan.Store.{Side}

-- A price and a quantity of a quote.
pub record Level : Type 0 where
  pub price : Text
  pub quantity : Text

pub record Quote : Type 0 where
  pub bids : List Level
  pub asks : List Level

pub record LpOrder : Type 0 where
  pub id : ℕ
  pub price : Text
  pub quantity : Text

-- The fields of a command that vary: the rest of a payload is constant (a limit order, GTC, leverage
-- "1", isolated, neither reduce-only nor post-only, of the liquidity provider) or made of these.
pub data LpCommand : Type 0 where
  place : (order_id market : ℕ) → Side → (price quantity : Text) → LpCommand
  cancel : (order_id market : ℕ) → LpCommand

-- The stream as the injector sees it: what it took, and how many commands were tried.
pub record Stream : Type 0 where
  pub taken : List LpCommand
  pub tried : ℕ
  pub next_id : ℕ

pub record Injector : Type 0 where
  pub market : ℕ
  pub active_bids : List LpOrder
  pub active_asks : List LpOrder
  pub stream : Stream

abbrev pub same_text : Text → Text → Bool
same_text [] [] = true
same_text (a ∷ s) (b ∷ t) = a == b && same_text s t
same_text [] (b ∷ t) = false
same_text (a ∷ s) [] = false

-- `desiredPrices.has(price)`
abbrev pub wants : List Level → Text → Bool
wants [] price = false
wants (b ∷ bs) price = if same_text b.price price then true else wants bs price

-- `active.has(price)`
abbrev pub holds : List LpOrder → Text → Bool
holds [] price = false
holds (o ∷ os) price = if same_text o.price price then true else holds os price

-- Whether Redis takes the n-th command is given.
module _ (accepts : ℕ → Bool) where
  -- `xadd` in its `try`: whether it succeeded.
  abbrev pub send : LpCommand → Stream → Bool × Stream
  send c s =
      if accepts s.tried
      then (true, record s { taken = s.taken ++ (c ∷ []); tried = suc s.tried })
      else (false, record s { tried = suc s.tried })

  -- A stale order is deleted whether or not its cancel was sent.
  unfoldable pub cancel_stale : ℕ → List Level → List LpOrder → Stream → List LpOrder × Stream
  cancel_stale market desired [] s = ([], s)
  cancel_stale market desired (o ∷ os) s =
      let kept = cancel_stale market desired os s in
      let dropped = cancel_stale market desired os (send (cancel o.id market) s).1 in
      if wants desired o.price then (o ∷ kept.0, kept.1) else dropped

  -- `placeOrder` with a fresh identifier; a failed one is not recorded.
  abbrev pub placed : Level → ℕ → Bool → List LpOrder → List LpOrder
  placed b id true active =
      active ++ (record { id = id; price = b.price; quantity = b.quantity } ∷ [])
  placed b id false active = active

  abbrev pub place_lp_order : ℕ → Side → Level → Stream → Bool × Stream
  place_lp_order market side b s =
      send (place s.next_id market side b.price b.quantity) (record s { next_id = suc s.next_id })

  unfoldable pub place_missing :
      ℕ → Side → List Level → List LpOrder → Stream → List LpOrder × Stream
  place_missing market side [] active s = (active, s)
  place_missing market side (b ∷ bs) active s =
      let sent = place_lp_order market side b s in
      let added = place_missing market side bs (placed b s.next_id sent.0 active) sent.1 in
      let skipped = place_missing market side bs active s in
      if holds active b.price then skipped else added

  unfoldable pub update_quotes : Quote → Injector → Injector
  unfolding cancel_stale place_missing
  update_quotes quote i =
      let bids = cancel_stale i.market quote.bids i.active_bids i.stream in
      let asks = cancel_stale i.market quote.asks i.active_asks bids.1 in
      let bids' = place_missing i.market Side.buy quote.bids bids.0 asks.1 in
      let asks' = place_missing i.market Side.sell quote.asks asks.0 bids'.1 in
      record i { active_bids = bids'.0; active_asks = asks'.0; stream = asks'.1 }

  unfoldable pub cancel_orders : ℕ → List LpOrder → Stream → Stream
  cancel_orders market [] s = s
  cancel_orders market (o ∷ os) s = cancel_orders market os (send (cancel o.id market) s).1

  unfoldable pub cancel_all : Injector → Injector
  unfolding cancel_orders
  cancel_all i = record i {
    active_bids = [];
    active_asks = [];
    stream = cancel_orders i.market (i.active_bids ++ i.active_asks) i.stream;
  }

unfoldable pub get_active_counts : Injector → ℕ × ℕ
get_active_counts i = (length i.active_bids, length i.active_asks)
