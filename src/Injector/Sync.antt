-- ===== src/Injector/Sync.antt =====
-- After an update the active orders are those of the quote, and the same quote again sends nothing.
use mathlib.Core.Path.{subst}
use perpetual_futures_exchan.Prelude.{
  ℕ, ◌≡◌, refl, sym, Bool, true, false, List, [], ◌∷◌, ◌++◌, ==_refl, arith, Bool-cases, inl, inr,
  All, All-append,
}
use perpetual_futures_exchan.Text.{Text}
use perpetual_futures_exchan.Store.{Side}
use perpetual_futures_exchan.Injector.{
  Level, Quote, LpOrder, LpCommand, Stream, Injector, same_text, wants, holds, send, cancel_stale,
  placed, place_lp_order, place_missing, update_quotes,
}

pub same_text_refl : (t : Text) → same_text t t ≡ true
same_text_refl [] = refl
same_text_refl (c ∷ t) = rw (==_refl c, same_text_refl t)

abbrev pub Wanted : List Level → List LpOrder → Type 0
Wanted desired orders = All (λ o. wants desired o.price ≡ true) orders

abbrev pub Held : List LpOrder → List Level → Type 0
Held orders levels = All (λ b. holds orders b.price ≡ true) levels

wants_member : (b : Level) (bs : List Level) → wants (b ∷ bs) b.price ≡ true
wants_member b bs = rw (same_text_refl b.price)

wants_later : (b : Level) (bs : List Level) (p : Text) → wants bs p ≡ true → wants (b ∷ bs) p ≡ true
wants_later b bs p h = ground arith

All-later :
    (b : Level) (bs ls : List Level)
    → All (λ l. wants bs l.price ≡ true) ls
    → All (λ l. wants (b ∷ bs) l.price ≡ true) ls
All-later b bs [] h = tt
All-later b bs (l ∷ ls) (h, hs) = (wants_later b bs l.price h, All-later b bs ls hs)

pub wants_self : (bs : List Level) → All (λ l. wants bs l.price ≡ true) bs
wants_self [] = tt
wants_self (b ∷ bs) = (wants_member b bs, All-later b bs bs (wants_self bs))

holds-append :
    (os : List LpOrder) (o : LpOrder) (p : Text)
    → holds os p ≡ true
    → holds (os ++ (o ∷ [])) p ≡ true
holds-append [] o p h = cc
holds-append (q ∷ os) o p h = ground (arith, holds-append os o p)

holds-new : (os : List LpOrder) (o : LpOrder) → holds (os ++ (o ∷ [])) o.price ≡ true
holds-new [] o = rw (same_text_refl o.price)
holds-new (q ∷ os) o = ground (arith, holds-new os o)

module _ (accepts : ℕ → Bool) where
  cancel_stale-Wanted :
      (market : ℕ) (desired : List Level) (os : List LpOrder) (s : Stream)
      → Wanted desired (cancel_stale accepts market desired os s).0
  unfolding cancel_stale
  cancel_stale-Wanted market desired [] s = tt
  cancel_stale-Wanted market desired (o ∷ os) s = elim (Bool-cases (wants desired o.price)) [
    | inl t ↦ rw t (t, cancel_stale-Wanted market desired os s)
    | inr t ↦
        rw t
          (cancel_stale-Wanted market desired os (send accepts (LpCommand.cancel o.id market) s).1)
  ]

  cancel_stale-none :
      (market : ℕ) (desired : List Level) (os : List LpOrder) (s : Stream)
      → Wanted desired os
      → cancel_stale accepts market desired os s ≡ (os, s)
  unfolding cancel_stale
  cancel_stale-none market desired [] s h = refl
  cancel_stale-none market desired (o ∷ os) s (w, h) =
      rw (w, cancel_stale-none market desired os s h)

  placed-Wanted :
      (desired : List Level) (b : Level) (id : ℕ) (sent : Bool) (os : List LpOrder)
      → wants desired b.price ≡ true
      → Wanted desired os
      → Wanted desired (placed accepts b id sent os)
  placed-Wanted desired b id true os w h =
      All-append (λ o. wants desired o.price ≡ true) os _ h (w, tt)
  placed-Wanted desired b id false os w h = h

  place_missing-Wanted :
      (market : ℕ) (side : Side) (desired bs : List Level) (os : List LpOrder) (s : Stream)
      → All (λ b. wants desired b.price ≡ true) bs
      → Wanted desired os
      → Wanted desired (place_missing accepts market side bs os s).0
  unfolding place_missing
  place_missing-Wanted market side desired [] os s w h = h
  place_missing-Wanted market side desired (b ∷ bs) os s (w, ws) h =
      elim (Bool-cases (holds os b.price)) [
        | inl t ↦ rw t (place_missing-Wanted market side desired bs os s ws h)
        | inr t ↦
            let sent = place_lp_order accepts market side b s in
            rw t (
              place_missing-Wanted market side desired bs (placed accepts b s.next_id sent.0 os)
                sent.1 ws (placed-Wanted desired b s.next_id sent.0 os w h))
      ]

  place_missing-none :
      (market : ℕ) (side : Side) (bs : List Level) (os : List LpOrder) (s : Stream)
      → Held os bs
      → place_missing accepts market side bs os s ≡ (os, s)
  unfolding place_missing
  place_missing-none market side [] os s h = refl
  place_missing-none market side (b ∷ bs) os s (t, h) =
      rw t (place_missing-none market side bs os s h)

  placed-holds :
      (b : Level) (id : ℕ) (sent : Bool) (os : List LpOrder) (p : Text)
      → holds os p ≡ true
      → holds (placed accepts b id sent os) p ≡ true
  placed-holds b id true os p h = holds-append os _ p h
  placed-holds b id false os p h = h

  place_missing-holds :
      (market : ℕ) (side : Side) (bs : List Level) (os : List LpOrder) (s : Stream) (p : Text)
      → holds os p ≡ true
      → holds (place_missing accepts market side bs os s).0 p ≡ true
  unfolding place_missing
  place_missing-holds market side [] os s p h = h
  place_missing-holds market side (b ∷ bs) os s p h = elim (Bool-cases (holds os b.price)) [
    | inl t ↦ rw t (place_missing-holds market side bs os s p h)
    | inr t ↦
        let sent = place_lp_order accepts market side b s in
        rw t (
          place_missing-holds market side bs (placed accepts b s.next_id sent.0 os) sent.1 p
            (placed-holds b s.next_id sent.0 os p h))
  ]

  missing_held :
      (market : ℕ) (side : Side) (b : Level) (bs : List Level) (os : List LpOrder) (s : Stream)
      → holds os b.price ≡ true
      → place_missing accepts market side (b ∷ bs) os s ≡ place_missing accepts market side bs os s
  unfolding place_missing
  missing_held market side b bs os s t = rw t

  missing_placed :
      (market : ℕ) (side : Side) (b : Level) (bs : List Level) (os : List LpOrder) (s : Stream)
      → holds os b.price ≡ false
      → let sent = place_lp_order accepts market side b s in
        place_missing accepts market side (b ∷ bs) os s
        ≡ place_missing accepts market side bs (placed accepts b s.next_id sent.0 os) sent.1
  unfolding place_missing
  missing_placed market side b bs os s t = rw t

  module _ (all : (n : ℕ) → accepts n ≡ true) where
    placed-new :
        (market : ℕ) (side : Side) (b : Level) (os : List LpOrder) (s : Stream)
        → holds (placed accepts b s.next_id (place_lp_order accepts market side b s).0 os) b.price
          ≡ true
    placed-new market side b os s =
        rw (all s.tried)
          (holds-new os (record { id = s.next_id; price = b.price; quantity = b.quantity }))

    place_missing-Held :
        (market : ℕ) (side : Side) (bs : List Level) (os : List LpOrder) (s : Stream)
        → Held (place_missing accepts market side bs os s).0 bs
    unfolding place_missing
    place_missing-Held market side [] os s = tt
    place_missing-Held market side (b ∷ bs) os s = elim (Bool-cases (holds os b.price)) [
      | inl t ↦
          subst (λ (r : List LpOrder × Stream). Held r.0 (b ∷ bs))
            (sym (missing_held market side b bs os s t))
            (
              place_missing-holds market side bs os s b.price t,
              place_missing-Held market side bs os s,
            )
      | inr t ↦
          let sent = place_lp_order accepts market side b s in
          let active = placed accepts b s.next_id sent.0 os in
          subst (λ (r : List LpOrder × Stream). Held r.0 (b ∷ bs))
            (sym (missing_placed market side b bs os s t))
            (
              place_missing-holds market side bs active sent.1 b.price
                  (placed-new market side b os s),
              place_missing-Held market side bs active sent.1,
            )
    ]

  -- Every active order is at a price of the quote, on its side.
  abbrev pub IsSynced : Quote → Injector → Type 0
  IsSynced quote i = Wanted quote.bids i.active_bids × Wanted quote.asks i.active_asks

  -- After an update every active order is at a price of the quote, on its side, whichever commands
  -- Redis took. If it took them all, every level of the quote has an active order, and the same quote
  -- again changes nothing and sends nothing.
  pub update_quotes-IsSynced :
      (quote : Quote) (i : Injector)
      → let after = update_quotes accepts quote i in
        IsSynced quote after
        × (((n : ℕ) → accepts n ≡ true)
            → Held after.active_bids quote.bids
              × Held after.active_asks quote.asks
              × (update_quotes accepts quote after ≡ after))
  unfolding update_quotes
  update_quotes-IsSynced quote i =
      let bids = cancel_stale accepts i.market quote.bids i.active_bids i.stream in
      let asks = cancel_stale accepts i.market quote.asks i.active_asks bids.1 in
      let bids' = place_missing accepts i.market Side.buy quote.bids bids.0 asks.1 in
      let asks' = place_missing accepts i.market Side.sell quote.asks asks.0 bids'.1 in
      let wb =
        place_missing-Wanted i.market Side.buy quote.bids quote.bids bids.0 asks.1
          (wants_self quote.bids)
          (cancel_stale-Wanted i.market quote.bids i.active_bids i.stream) in
      let wa =
        place_missing-Wanted i.market Side.sell quote.asks quote.asks asks.0 bids'.1
          (wants_self quote.asks) (cancel_stale-Wanted i.market quote.asks i.active_asks bids.1) in
      (
        (wb, wa),
        λ all.
            let hb = place_missing-Held all i.market Side.buy quote.bids bids.0 asks.1 in
            let ha = place_missing-Held all i.market Side.sell quote.asks asks.0 bids'.1 in
            (
              hb,
              ha,
              rw (
                cancel_stale-none i.market quote.bids bids'.0 asks'.1 wb,
                cancel_stale-none i.market quote.asks asks'.0 asks'.1 wa,
                place_missing-none i.market Side.buy quote.bids bids'.0 asks'.1 hb,
                place_missing-none i.market Side.sell quote.asks asks'.0 asks'.1 ha,
              ),
            ),
      )
