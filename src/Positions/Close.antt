-- ===== src/Positions/Close.antt =====
-- The order that closes a position, on every branch.
use perpetual_futures_exchan.Prelude.{
  ℕ, suc, ◌≤◌, ◌≡◌, ◌⊎◌, refl, true, false, none, some, [], ◌∷◌, ◌++◌, ◌==◌, arith, Bool-cases,
  Option-cases, inl, inr,
}
use perpetual_futures_exchan.Big.{Js}
use perpetual_futures_exchan.Decimal.{DecStr, zero_text, places, amount}
use perpetual_futures_exchan.Store.{Db, Market, Order, OrderStatus, OrderType, Position, Command}
use perpetual_futures_exchan.Store.Rows.{first}
use perpetual_futures_exchan.Store.Monad.{
  Result, ok, err, position_not_found, position_not_open, market_not_found, numeric_field_overflow,
  redis_error,
}
use perpetual_futures_exchan.Store.Numeric.{Postgres, IsPostgres}
use perpetual_futures_exchan.DbWriter.Positions.{is_live}
use perpetual_futures_exchan.Positions.{position_of, close_side, close_order, close_position}

module _ ⦃js : Js⦄ ⦃pg : Postgres⦄ where
  -- The order that the call has stored, and its command.
  pub record ClosingOrder (id user_id : ℕ) (db db' : Db) (o : Order) (c : Command) : Type 0 where
    pub position : Position
    pub market : Market
    pub found : position_of id user_id db ≡ some position
    pub live : is_live position.status ≡ true
    pub listed : first (λ m. m.id == position.market_id) db.markets ≡ some market
    pub same_market : o.market_id ≡ market.id
    pub owner : o.user_id ≡ user_id
    pub opened : o.status ≡ OrderStatus.opened
    pub opposite : o.side ≡ close_side position.side
    pub kind : o.order_type ≡ OrderType.market
    pub reduces : o.reduce_only ≡ true
    pub whole : places position.quantity ≤ 8 → amount 8 o.quantity ≡ amount 8 position.quantity
    pub stored : db'.orders ≡ db.orders ++ (o ∷ [])
    pub command :
        c
        ≡ Command.close_position o.id user_id market.symbol o.side position.quantity
            position.margin_mode
    pub outbox_kept : db'.outbox ≡ db.outbox
    pub positions_kept : db'.positions ≡ db.positions
    pub balances_kept : db'.balances ≡ db.balances

  abbrev pub Closes : ℕ → ℕ → Db → Result Order × Db → Type 0
  Closes id user_id db (ok o, db') =
      (c : Command) × ClosingOrder id user_id db db' o c × (db'.commands ≡ db.commands ++ (c ∷ []))
  Closes id user_id db (err e, db') =
      (db'.commands ≡ db.commands)
      × ((db' ≡ db)
          ⊎ ((e ≡ redis_error) × (o : Order) × (c : Command) × ClosingOrder id user_id db db' o c))

  module _ (id user_id : ℕ) (db : Db) where
    close_missing :
        position_of id user_id db ≡ none
        → close_position id user_id db ≡ (err position_not_found, db)
    unfolding close_position
    close_missing e = ground arith

    module _ (p : Position) (found : position_of id user_id db ≡ some p) where
      close_again :
          is_live p.status ≡ false → close_position id user_id db ≡ (err position_not_open, db)
      unfolding close_position
      close_again e = ground arith

      module _ (live : is_live p.status ≡ true) where
        close_marketless :
            first (λ m. m.id == p.market_id) db.markets ≡ none
            → close_position id user_id db ≡ (err market_not_found, db)
        unfolding close_position
        close_marketless e = ground arith

        module _ (m : Market) (listed : first (λ m. m.id == p.market_id) db.markets ≡ some m) where
          close_unwritten :
              (pg.column p.quantity ≡ none)
                ⊎ ((pg.column zero_text ≡ none) ⊎ (pg.column (b'1' ∷ []) ≡ none))
              → close_position id user_id db ≡ (err numeric_field_overflow, db)
          unfolding close_position
          close_unwritten e = ground arith

          module _ (q z l : DecStr) (quantity : pg.column p.quantity ≡ some q)
              (filled : pg.column zero_text ≡ some z)
              (leverage : pg.column (b'1' ∷ []) ≡ some l) where
            abbrev order : Order
            order = close_order user_id p m q z l db

            abbrev command : Command
            command =
                Command.close_position order.id user_id m.symbol (close_side p.side) p.quantity
                  p.margin_mode

            close_unsent :
                db.redis_up ≡ false
                → close_position id user_id db ≡ (
                  err redis_error,
                  record db { orders = db.orders ++ (order ∷ []); next_id = suc db.next_id },
                )
            unfolding close_position
            close_unsent down = ground arith

            close_sent :
                db.redis_up ≡ true
                → close_position id user_id db ≡ (
                  ok order,
                  record db {
                    orders = db.orders ++ (order ∷ []);
                    next_id = suc db.next_id;
                    commands = db.commands ++ (command ∷ []);
                  },
                )
            unfolding close_position
            close_sent up = ground arith

  module _ (laws : IsPostgres pg) (id user_id : ℕ) (db : Db) where
    closing :
        (p : Position) (m : Market) (q z l : DecStr) (db' : Db)
        → position_of id user_id db ≡ some p
        → is_live p.status ≡ true
        → first (λ m. m.id == p.market_id) db.markets ≡ some m
        → pg.column p.quantity ≡ some q
        → (db'.orders ≡ db.orders ++ (close_order user_id p m q z l db ∷ []))
          × (db'.outbox ≡ db.outbox)
          × (db'.positions ≡ db.positions)
          × (db'.balances ≡ db.balances)
        → ClosingOrder id user_id db db' (close_order user_id p m q z l db) (
            Command.close_position db.next_id user_id m.symbol
              (close_side p.side)
              p.quantity
              p.margin_mode)
    closing p m q z l db' found live listed quantity (stored, outbox, positions, balances) =
        record {
          position = p;
          market = m;
          found = found;
          live = live;
          listed = listed;
          same_market = refl;
          owner = refl;
          opened = refl;
          opposite = refl;
          kind = refl;
          reduces = refl;
          whole = λ fits. laws.column_exact p.quantity q quantity fits;
          stored = stored;
          command = refl;
          outbox_kept = outbox;
          positions_kept = positions;
          balances_kept = balances;
        }

    written-Closes :
        (p : Position) (m : Market) (q z l : DecStr)
        → position_of id user_id db ≡ some p
        → is_live p.status ≡ true
        → first (λ m. m.id == p.market_id) db.markets ≡ some m
        → pg.column p.quantity ≡ some q
        → pg.column zero_text ≡ some z
        → pg.column (b'1' ∷ []) ≡ some l
        → Closes id user_id db (close_position id user_id db)
    written-Closes p m q z l found live listed cq cz cl = elim (Bool-cases db.redis_up) [
      | inl up ↦
          let order =
            closing p m q z l
              (record db {
                orders = db.orders ++ (close_order user_id p m q z l db ∷ []);
                next_id = suc db.next_id;
                commands =
                    db.commands
                    ++ (Command.close_position db.next_id user_id m.symbol (close_side p.side)
                          p.quantity p.margin_mode
                        ∷ []);
              })
              found live listed cq (refl, refl, refl, refl) in
          rw (close_sent id user_id db p found live m listed q z l cq cz cl up) (_, order, refl)
      | inr down ↦
          let order =
            closing p m q z l
              (record db {
                orders = db.orders ++ (close_order user_id p m q z l db ∷ []);
                next_id = suc db.next_id;
              })
              found live listed cq (refl, refl, refl, refl) in
          rw (close_unsent id user_id db p found live m listed q z l cq cz cl down)
            (refl, inr (refl, close_order user_id p m q z l db, _, order))
    ]

    -- The close call on every branch, on PostgreSQL's columns. If it succeeds, then for an open position
    -- of the user, in the market that the tables list for it: it stores one reduce-only market order
    -- of the user in that market, with the status open, on the opposite side, of the whole quantity
    -- (where that has eight places at most), sends exactly its command, and leaves outbox, positions
    -- and balances alone. If it fails, nothing is sent, and nothing has changed, unless Redis refused
    -- the command: then such an order stays stored as open, and the outbox is as before, so that no
    -- event is left to send it later.
    pub close_position-Closes : Closes id user_id db (close_position id user_id db)
    close_position-Closes = elim (Option-cases (position_of id user_id db)) [
      | inl missing ↦ rw (close_missing id user_id db missing) (refl, inl refl)
      | inr (p, found) ↦ elim (Bool-cases (is_live p.status)) [
        | inr closed ↦ rw (close_again id user_id db p found closed) (refl, inl refl)
        | inl live ↦ elim (Option-cases (first (λ m. m.id == p.market_id) db.markets)) [
          | inl unlisted ↦
              rw (close_marketless id user_id db p found live unlisted) (refl, inl refl)
          | inr (m, listed) ↦ elim (Option-cases (pg.column p.quantity)) [
            | inl refused ↦
                rw (close_unwritten id user_id db p found live m listed (inl refused))
                  (refl, inl refl)
            | inr (q, cq) ↦ elim (Option-cases (pg.column zero_text)) [
              | inl refused ↦
                  rw (close_unwritten id user_id db p found live m listed (inr (inl refused)))
                    (refl, inl refl)
              | inr (z, cz) ↦ elim (Option-cases (pg.column (b'1' ∷ []))) [
                | inl refused ↦
                    rw (close_unwritten id user_id db p found live m listed (inr (inr refused)))
                      (refl, inl refl)
                | inr (l, cl) ↦ written-Closes p m q z l found live listed cq cz cl
              ]
            ]
          ]
        ]
      ]
    ]
