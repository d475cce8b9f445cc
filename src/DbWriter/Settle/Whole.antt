-- ===== src/DbWriter/Settle/Whole.antt =====
-- What TRADE_EXECUTED does to all balances when it commits.
use mathlib.Core.Path.{subst}
use perpetual_futures_exchan.Prelude.{ℕ, All, ◌≡◌, refl, sym, ap, ◌∙◌, some}
use perpetual_futures_exchan.Prelude.Int.{ℤ}
use perpetual_futures_exchan.Big.{Js}
use perpetual_futures_exchan.Decimal.{DecStr}
use perpetual_futures_exchan.Store.{Db, Market, Order}
use perpetual_futures_exchan.Store.Monad.{Result, ok, err, ◌>>◌}
use perpetual_futures_exchan.Store.Session.{Reply, ended, waits}
use perpetual_futures_exchan.Store.Numeric.{Postgres, IsPostgres}
use perpetual_futures_exchan.Balance.Moved.{IsLedger, IsSound}
use perpetual_futures_exchan.Balance.Fresh.{IsFresh}
use perpetual_futures_exchan.Balance.Table.{IsTable}
use perpetual_futures_exchan.Store.Rows.{first}
use perpetual_futures_exchan.Balance.Holdings.{Shift}
use perpetual_futures_exchan.Orders.{has_order_id}
use perpetual_futures_exchan.DbWriter.{EngineEvent, order_by_id, apply_trade_to_order}
use perpetual_futures_exchan.DbWriter.Credit.{TradeEvent, insert_fill}
use perpetual_futures_exchan.DbWriter.Trade.{
  settlement, fee_of, trade_of, market_of, handle_trade_executed,
}
use perpetual_futures_exchan.DbWriter.Agree.{Keeps}
use perpetual_futures_exchan.DbWriter.Agree.Statements.{insert_fill-Keeps}
use perpetual_futures_exchan.DbWriter.InOrder.{
  settle_in_order, follow_in_order, trade_in_order, charge, kept_if_ok, trade_at_once, Executes,
  IsTradable,
}
use perpetual_futures_exchan.DbWriter.InOrder.Whole.{handle_trade_executed-Executes}
use perpetual_futures_exchan.DbWriter.Leftover.{Spent}
use perpetual_futures_exchan.DbWriter.Leftover.Trade.{Leaves, handle_trade_executed-Leaves}
use perpetual_futures_exchan.DbWriter.Settle.{IfOk, Good, Settled}
use perpetual_futures_exchan.DbWriter.Settle.Sides.{Funded, gained, given, buyer_of, seller_of}
use perpetual_futures_exchan.DbWriter.Settle.Steps.{then-IfOk}
use perpetual_futures_exchan.DbWriter.Settle.Found.{IfOk-imp, settle-Settled}
use perpetual_futures_exchan.DbWriter.Settle.Keeps.{
  SameBalances, Funded-resp, Shift-resp, always, apply-SameBalances, tail-Shift,
  upserts-SameBalances,
}

module _ ⦃js : Js⦄ where
  -- What the trade adds to what each user has available of each asset, and to what is locked: the
  -- buyer's margin and the seller's quantity are spent.
  abbrev pub bought : TradeEvent → Market → (mf tf : DecStr) → (t m : Order) → ℕ → ℕ → ℤ
  bought ev market mf tf t m =
      gained (settlement market ev) (buyer_of ev.side tf mf) (seller_of ev.side tf mf)
        (buyer_of ev.side t m) (seller_of ev.side t m)

  abbrev pub spent : TradeEvent → Market → DecStr → (t m : Order) → ℕ → ℕ → ℤ
  spent ev market margin t m =
      given (settlement market ev) margin (buyer_of ev.side t m) (seller_of ev.side t m)

  abbrev pub FundedTrade :
      TradeEvent → Market → (mf tf margin : DecStr) → (t m : Order) → Db → Type 0
  FundedTrade ev market mf tf margin t m db =
      Funded (settlement market ev) (buyer_of ev.side tf mf) (seller_of ev.side tf mf) margin
        (buyer_of ev.side t m) (seller_of ev.side t m) db

module _ ⦃js : Js⦄ ⦃pg : Postgres⦄ (laws : IsPostgres pg) (ev : TradeEvent) (market : Market)
    (t m : Order) (mf tf margin : DecStr) (db : Db) (ft : order_by_id ev.taker_order_id db ≡ some t)
    (fm : order_by_id ev.maker_order_id db ≡ some m) (ledger : IsLedger db)
    (fresh : IsFresh db.next_id db.balances) where
  settled_after_fill :
      FundedTrade ev market mf tf margin t m db
      → IfOk (Shift (bought ev market mf tf t m) (spent ev market margin t m) db) (
          (insert_fill market.id ev mf tf
              >> settle_in_order (settlement market ev) ev mf tf ev.side)
            db)
  settled_after_fill f =
      let s = settlement market ev in
      let da = bought ev market mf tf t m in
      let dl = spent ev market margin t m in
      let fill = insert_fill market.id ev mf tf in
      then-IfOk fill (settle_in_order s ev mf tf ev.side) (Keeps db) (Shift da dl db) db
        (always (Keeps db) (fill db) (insert_fill-Keeps market.id ev mf tf db))
        (λ d k.
          let good : Good d = record {
            ledger = record {
              table = subst IsTable (sym k.balances) ledger.table;
              sound = subst (All IsSound) (sym k.balances) ledger.sound;
            };
            fresh = subst (IsFresh d.next_id) (sym k.balances) (k.fresh db.balances fresh);
          } in
          IfOk-imp (Settled da dl d) (Shift da dl db) (settle_in_order s ev mf tf ev.side d)
            (λ d' h. Shift-resp da dl db d d' d' (k.balances) h.shift refl)
            (settle-Settled laws s ev t m mf tf margin ev.side d
              (ap (first (has_order_id ev.taker_order_id)) k.orders ∙ ft)
              (ap (first (has_order_id ev.maker_order_id)) k.orders ∙ fm)
              (Funded-resp s _ _ margin _ _ db d k.balances f) good))

  trade_in_order-Shift :
      FundedTrade ev market mf tf margin t m db
      → IfOk
          (Shift (bought ev market mf tf t m) (spent ev market margin t m) db)
          (trade_in_order market ev mf tf db)
  trade_in_order-Shift f =
      let s = settlement market ev in
      let da = bought ev market mf tf t m in
      let dl = spent ev market margin t m in
      let m1 = insert_fill market.id ev mf tf >> settle_in_order s ev mf tf ev.side in
      let a = apply_trade_to_order ev.maker_order_id ev.quantity ev.price in
      let b = apply_trade_to_order ev.taker_order_id ev.quantity ev.price in
      tail-Shift da dl (m1 >> a >> b) (follow_in_order market.id ev) db
        (tail-Shift da dl (m1 >> a) b db
          (tail-Shift da dl m1 a db (settled_after_fill f) (λ d.
            always (SameBalances d) (a d)
              (apply-SameBalances ev.maker_order_id ev.quantity ev.price d)))
          (λ d.
            always (SameBalances d) (b d)
              (apply-SameBalances ev.taker_order_id ev.quantity ev.price d)))
        (upserts-SameBalances _ _)

module _ ⦃js : Js⦄ where
  -- How the handler ends: the holdings change by these amounts, or it fails, and only what is committed
  -- on other connections stays.
  abbrev pub Settles : (da dl : ℕ → ℕ → ℤ) → Db → Reply (Unit {0}) × Db → Type 0
  Settles da dl db (ended (ok _), db') = Shift da dl db db'
  Settles da dl db (ended (err e), db') = Spent db db'
  Settles da dl db (waits, db') = ⊥

module _ ⦃js : Js⦄ ⦃pg : Postgres⦄ where
  settle_by :
      (da dl : ℕ → ℕ → ℤ) (db : Db) (x : Reply (Unit {0}) × Db) (n : Result (Unit {0}) × Db)
      → Executes x n
      → Leaves db x
      → IfOk (Shift da dl db) n
      → Settles da dl db x
  settle_by da dl db (ended (ok _), db') n e l h = subst (IfOk (Shift da dl db)) e h
  settle_by da dl db (ended (err x), db') n e l h = l
  settle_by da dl db (waits, db') n e l h = absurd e

  kept-IfOk :
      (P : Db → Type 0) (db : Db) (n : Result (Unit {0}) × Db) → IfOk P n → IfOk P (kept_if_ok db n)
  kept-IfOk P db (ok _, d) h = h
  kept-IfOk P db (err e, d) h = tt

  module _ (laws : IsPostgres pg) (event : EngineEvent) (ev : TradeEvent) (market : Market)
      (db : Db) (complete : trade_of event ≡ some ev) (known : market_of ev db ≡ some market)
      (h : IsTradable ev db) (ledger : IsLedger db) (mf tf margin : DecStr)
      (maker_charged : fee_of ev market.maker_fee_bps ≡ some mf)
      (taker_charged : fee_of ev market.taker_fee_bps ≡ some tf)
      (funded : FundedTrade ev market mf tf margin h.taker h.maker db) where
    trade_at_once-Shift :
        IfOk
          (Shift
            (bought ev market mf tf h.taker h.maker)
            (spent ev market margin h.taker h.maker)
            db)
          (trade_at_once market ev db)
    trade_at_once-Shift =
        let P =
          Shift (bought ev market mf tf h.taker h.maker) (spent ev market margin h.taker h.maker)
            db in
        subst (λ x. IfOk P (charge market ev x (fee_of ev market.maker_fee_bps) db))
          (sym taker_charged)
          (subst (λ x. IfOk P (charge market ev (some tf) x db)) (sym maker_charged)
            (kept-IfOk P db (trade_in_order market ev mf tf db) (
              trade_in_order-Shift laws ev market h.taker h.maker mf tf margin db h.taker_found
                h.maker_found ledger h.fresh funded)))

    -- TRADE_EXECUTED, when it commits, moves exactly this: the buyer's margin and the seller's quantity
    -- are no longer locked; the buyer has the quantity, and his fee less, the seller the notional less his
    -- own fee; no other holding of any user in any asset changes, and no amount gets negative. If it
    -- fails, only locked balances and fills of orders can have changed; it never waits for ever. The two
    -- users differ and are not external, the buyer has locked the margin and has the fee, the seller has
    -- locked the quantity; the amounts have eight places at most, the ledger has unique keys and no
    -- negative amount, identifiers are fresh, and the columns are PostgreSQL's.
    pub handle_trade_executed-Settles :
        Settles
          (bought ev market mf tf h.taker h.maker)
          (spent ev market margin h.taker h.maker)
          db
          (handle_trade_executed event db)
    handle_trade_executed-Settles =
        settle_by _ _ db (handle_trade_executed event db) (trade_at_once market ev db)
          (handle_trade_executed-Executes event ev market db complete known h)
          (handle_trade_executed-Leaves event db) trade_at_once-Shift
