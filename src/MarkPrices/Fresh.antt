-- ===== src/MarkPrices/Fresh.antt =====
-- Mark prices are fresh and positive reference prices.
use mathlib.Core.Path.{subst}
use perpetual_futures_exchan.Orders.{is_active}
use perpetual_futures_exchan.Prelude.{
  ℕ, ◌≡◌, ◌⊎◌, refl, sym, ◌∙◌, ap, true, false, Option, none, some, List, [], ◌∷◌, ◌==◌,
  if◌then◌else◌, arith, Bool-cases, Option-cases, inl, inr,
}
use perpetual_futures_exchan.Big.{Js}
use perpetual_futures_exchan.Decimal.{DecStr, zero_text, gt}
use perpetual_futures_exchan.Store.{Db, Market, Position}
use perpetual_futures_exchan.Store.Rows.{first, where_, update_rows}
use perpetual_futures_exchan.Store.Monad.{Action, Result, ok, ◌>>◌, then_ok}
use perpetual_futures_exchan.Store.Numeric.{Postgres}
use perpetual_futures_exchan.DbWriter.Positions.{is_live}
use perpetual_futures_exchan.MarkPrices.{
  MarkPriceData, is_marked, marked_at, is_stale, is_empty, parse_mark_price_data,
  update_mark_prices, poll_entry, poll_each, poll_mark_prices,
}

module _ ⦃js : Js⦄ ⦃pg : Postgres⦄ (read : ℕ → Option MarkPriceData) where
  -- A reference price that Redis held for some key, positive and not stale, as the column keeps it.
  pub record IsFresh (now : ℕ) (mark : DecStr) : Type 0 where
    pub key : ℕ
    pub entry : MarkPriceData
    pub held : read key ≡ some entry
    pub positive : gt entry.price zero_text ≡ true
    pub recent : is_stale now entry ≡ false
    pub stored : pg.column entry.price ≡ some mark

  -- Only the mark price may differ, only of an open position, and then it is fresh.
  abbrev pub Marked : ℕ → Position → Position → Type 0
  Marked now p q =
      (q ≡ record p { mark_price = q.mark_price })
      × ((q.mark_price ≡ p.mark_price) ⊎ ((is_live p.status ≡ true) × IsFresh now q.mark_price))

  abbrev pub AllMarked : ℕ → List Position → List Position → Type 0
  AllMarked now [] [] = Unit
  AllMarked now (p ∷ ps) (q ∷ qs) = Marked now p q × AllMarked now ps qs
  AllMarked now [] (q ∷ qs) = ⊥
  AllMarked now (p ∷ ps) [] = ⊥

  AllMarked-refl : (now : ℕ) (ps : List Position) → AllMarked now ps ps
  AllMarked-refl now [] = tt
  AllMarked-refl now (p ∷ ps) = ((refl, inl refl), AllMarked-refl now ps)

  Marked-trans : (now : ℕ) (p q r : Position) → Marked now p q → Marked now q r → Marked now p r
  Marked-trans now p q r (e, c) (f, d) =
      let live : q.status ≡ p.status = ap (λ (x : Position). x.status) e in
      (
        f ∙ ap (λ (x : Position). record x { mark_price = r.mark_price }) e,
        elim d [
          | inl same ↦ elim c [
            | inl same' ↦ inl (same ∙ same')
            | inr (l, fresh) ↦ inr (l, rw same fresh)
          ]
          | inr (l, fresh) ↦ inr (sym (ap is_live live) ∙ l, fresh)
        ],
      )

  AllMarked-trans :
      (now : ℕ) (ps qs rs : List Position)
      → AllMarked now ps qs
      → AllMarked now qs rs
      → AllMarked now ps rs
  AllMarked-trans now [] [] [] h k = tt
  AllMarked-trans now (p ∷ ps) (q ∷ qs) (r ∷ rs) (m, h) (n, k) =
      (Marked-trans now p q r m n, AllMarked-trans now ps qs rs h k)
  AllMarked-trans now [] (q ∷ qs) rs h k = absurd h
  AllMarked-trans now [] [] (r ∷ rs) h k = absurd k
  AllMarked-trans now (p ∷ ps) [] rs h k = absurd h
  AllMarked-trans now (p ∷ ps) (q ∷ qs) [] h k = absurd k

  AllMarked-update :
      (now market : ℕ) (mark : DecStr) (ps : List Position)
      → IsFresh now mark
      → AllMarked now ps (update_rows (is_marked market) (marked_at mark) ps)
  AllMarked-update now market mark [] fresh = tt
  AllMarked-update now market mark (p ∷ ps) fresh =
      let head : Marked now p (if is_marked market p then marked_at mark p else p) =
        elim (Bool-cases (is_marked market p)) [
          | inl t ↦ rw t (refl, inr (ground arith, fresh))
          | inr t ↦ rw t (refl, inl refl)
        ] in
      (head, AllMarked-update now market mark ps fresh)

  -- A step that does not fail, and changes positions alone.
  pub record Marks (db : Db) (run : Result (Unit {0}) × Db) : Type 0 where
    pub succeeds : run.0 ≡ ok tt
    pub frame : run.1 ≡ record db { positions = run.1.positions }
    pub marked : AllMarked db.clock db.positions run.1.positions

  Marks-refl : (db : Db) → Marks db (ok tt, db)
  Marks-refl db = record {
    succeeds = refl;
    frame = refl;
    marked = AllMarked-refl db.clock db.positions;
  }

  Marks-then :
      (m k : Action (Unit {0})) (db db' : Db)
      → m db ≡ (ok tt, db')
      → Marks db (m db)
      → Marks db' (k db')
      → Marks db ((m >> k) db)
  Marks-then m k db db' run one two =
      let first_step = rw run at one in
      let clock : db'.clock ≡ db.clock = ap (λ (d : Db). d.clock) first_step.frame in
      rw (then_ok m k db db' tt run) (record {
        succeeds = two.succeeds;
        frame =
            two.frame
            ∙ ap (λ (d : Db). record d { positions = (k db').1.positions }) first_step.frame;
        marked =
            AllMarked-trans db.clock db.positions db'.positions (k db').1.positions
              first_step.marked
              (subst (λ (c : ℕ). AllMarked c db'.positions (k db').1.positions) clock two.marked);
      })

  module _ (key : ℕ) (entry : MarkPriceData) (db : Db) (held : read key ≡ some entry)
      (positive : gt entry.price zero_text ≡ true) (recent : is_stale db.clock entry ≡ false) where
    unknown_run :
        first (λ m. m.symbol == entry.market) db.markets ≡ none
        → update_mark_prices entry.price entry.market db ≡ (ok tt, db)
    unfolding update_mark_prices
    unknown_run unknown = ground arith

    module _ (m : Market) (found : first (λ m. m.symbol == entry.market) db.markets ≡ some m) where
      idle_run :
          is_empty (where_ (is_marked m.id) db.positions) ≡ true
          → update_mark_prices entry.price entry.market db ≡ (ok tt, db)
      unfolding update_mark_prices
      idle_run empty = ground arith

      refused_run :
          pg.column entry.price ≡ none
          → update_mark_prices entry.price entry.market db ≡ (ok tt, db)
      unfolding update_mark_prices
      refused_run refused = ground arith

      marked_run :
          (u : DecStr)
          → is_empty (where_ (is_marked m.id) db.positions) ≡ false
          → pg.column entry.price ≡ some u
          → update_mark_prices entry.price entry.market db ≡ (
            ok tt,
            record db { positions = update_rows (is_marked m.id) (marked_at u) db.positions },
          )
      unfolding update_mark_prices
      marked_run u some_open stored = ground arith

    update_mark_prices-Marks : Marks db (update_mark_prices entry.price entry.market db)
    update_mark_prices-Marks =
        elim (Option-cases (first (λ m. m.symbol == entry.market) db.markets)) [
          | inl unknown ↦ rw (unknown_run unknown) (Marks-refl db)
          | inr (m, found) ↦ elim (Bool-cases (is_empty (where_ (is_marked m.id) db.positions))) [
            | inl empty ↦ rw (idle_run m found empty) (Marks-refl db)
            | inr some_open ↦ elim (Option-cases (pg.column entry.price)) [
              | inl refused ↦ rw (refused_run m found refused) (Marks-refl db)
              | inr (u, stored) ↦
                  let fresh : IsFresh db.clock u = record {
                    key = key;
                    entry = entry;
                    held = held;
                    positive = positive;
                    recent = recent;
                    stored = stored;
                  } in
                  rw (marked_run m found u some_open stored) (record {
                    succeeds = refl;
                    frame = refl;
                    marked = AllMarked-update db.clock m.id u db.positions fresh;
                  })
            ]
          ]
        ]

  poll_entry-Marks :
      (key : ℕ) (o : Option MarkPriceData) (db : Db)
      → read key ≡ o
      → Marks db (poll_entry (parse_mark_price_data o) db)
  unfolding poll_entry
  poll_entry-Marks key none db held = Marks-refl db
  poll_entry-Marks key (some e) db held = elim (Bool-cases (gt e.price zero_text)) [
    | inr not_positive ↦ rw not_positive (Marks-refl db)
    | inl positive ↦ elim (Bool-cases (is_stale db.clock e)) [
      | inl stale ↦ rw (positive, stale) (Marks-refl db)
      | inr recent ↦ rw (positive, recent) (update_mark_prices-Marks key e db held positive recent)
    ]
  ]

  ok_of : (db : Db) (r : Result (Unit {0}) × Db) → Marks db r → r ≡ (ok tt, r.1)
  ok_of db r h = ap (λ (x : Result (Unit {0})). (x, r.1)) h.succeeds

  poll_each-Marks : (rows : List Market) (db : Db) → Marks db (poll_each read rows db)
  unfolding poll_each
  poll_each-Marks [] db = Marks-refl db
  poll_each-Marks (m ∷ rows) db =
      let step = poll_entry (parse_mark_price_data (read m.symbol)) in
      let one = poll_entry-Marks m.symbol (read m.symbol) db refl in
      Marks-then step (poll_each read rows) db (step db).1 (ok_of db (step db) one) one
        (poll_each-Marks rows (step db).1)

  -- A tick of the updater never fails and changes positions alone. Of a position at most the mark
  -- price changes, only while it is open, and only to a price that Redis held, that is above zero and
  -- not older than thirty seconds, as the column keeps it.
  pub poll_mark_prices-Marks : (db : Db) → Marks db (poll_mark_prices read db)
  unfolding poll_mark_prices
  poll_mark_prices-Marks db = poll_each-Marks (where_ (λ m. is_active m.status) db.markets) db
