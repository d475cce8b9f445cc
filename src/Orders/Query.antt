-- ===== src/Orders/Query.antt =====
-- The reading half of the order service.
use perpetual_futures_exchan.Prelude.{
  ℕ, zero, suc, Bool, true, ◌&&◌, Option, none, some, List, [], ◌∷◌, ltb, ◌==◌, if◌then◌else◌, take,
}
use perpetual_futures_exchan.Store.{Db, Order, OrderStatus}
use perpetual_futures_exchan.Store.Rows.{first, where_}

-- `orderBy(desc(orders.createdAt))`; rows of one instant keep the table's order.
unfoldable pub insert_newest : Order → List Order → List Order
insert_newest o [] = o ∷ []
insert_newest o (r ∷ rows) =
    if ltb r.created_at o.created_at then o ∷ r ∷ rows else r ∷ insert_newest o rows

unfoldable pub newest_first : List Order → List Order
unfolding insert_newest
newest_first [] = []
newest_first (o ∷ rows) = insert_newest o (newest_first rows)

-- A number for each status, to compare them.
abbrev pub status_code : OrderStatus → ℕ
status_code OrderStatus.pending = 0
status_code OrderStatus.opened = 1
status_code OrderStatus.partially_filled = 2
status_code OrderStatus.filled = 3
status_code OrderStatus.canceled = 4
status_code OrderStatus.rejected = 5
status_code OrderStatus.expired = 6

pub record Filters : Type 0 where
  pub status : Option OrderStatus
  pub market : Option ℕ
  pub limit : Option ℕ

abbrev pub same_status : OrderStatus → OrderStatus → Bool
same_status a b = status_code a == status_code b

abbrev pub has_status : Option OrderStatus → Order → Bool
has_status none o = true
has_status (some s) o = same_status o.status s

-- `limit || 100`
abbrev pub limit_of : Option ℕ → ℕ
limit_of none = 100
limit_of (some zero) = 100
limit_of (some (suc n)) = suc n

unfoldable pub list_user_orders : ℕ → Filters → Db → List Order
unfolding newest_first
list_user_orders user_id filters db = elim filters.market [
  | none ↦ selected (λ o. true)
  | some symbol ↦ elim (first (λ m. m.symbol == symbol) db.markets) [
    | none ↦ []
    | some m ↦ selected (λ o. o.market_id == m.id)
  ]
]
  where
    selected : (Order → Bool) → List Order
    selected in_market = take (limit_of filters.limit) (
        newest_first (
          where_ (λ o. o.user_id == user_id && has_status filters.status o && in_market o)
            db.orders))

-- A user is asked for only where one is given.
unfoldable pub get_order_by_id : ℕ → Option ℕ → Db → Option Order
get_order_by_id order_id user_id db =
    first (λ o. o.id == order_id && elim user_id [ none ↦ true | some u ↦ o.user_id == u ])
      db.orders
