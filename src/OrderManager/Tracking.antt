-- ===== src/OrderManager/Tracking.antt =====
-- What the manager knows after an update of the quotes.
use perpetual_futures_exchan.Prelude.{
  ℕ, suc, ◌≡◌, true, Option, none, some, List, [], ◌∷◌, Bool-cases, inl, inr, All,
}
use perpetual_futures_exchan.Text.{Text}
use perpetual_futures_exchan.Store.{Side}
use perpetual_futures_exchan.Injector.{Level, Quote, same_text, wants}
use perpetual_futures_exchan.Injector.Sync.{wants_self}
use perpetual_futures_exchan.OrderManager.{
  ClientOrder, ActiveOrder, Client, Entry, OrderManager, has, set_entry, active_of, cancel_stale,
  recorded, place_missing, update_quotes,
}

abbrev pub KeysWanted : List Level → List Entry → Type 0
KeysWanted desired es = All (λ e. wants desired e.key ≡ true) es

module _ (client : Client) where
  cancel_stale-KeysWanted :
      (desired : List Level) (es : List Entry) (calls : ℕ)
      → KeysWanted desired (cancel_stale client desired es calls).0
  unfolding cancel_stale
  cancel_stale-KeysWanted desired [] calls = tt
  cancel_stale-KeysWanted desired (e ∷ es) calls = elim (Bool-cases (wants desired e.key)) [
    | inl t ↦ rw t (t, cancel_stale-KeysWanted desired es calls)
    | inr t ↦ rw t (cancel_stale-KeysWanted desired es (suc calls))
  ]

  set_entry-KeysWanted :
      (desired : List Level) (key : Text) (o : ActiveOrder) (es : List Entry)
      → wants desired key ≡ true
      → KeysWanted desired es
      → KeysWanted desired (set_entry key o es)
  unfolding set_entry
  set_entry-KeysWanted desired key o [] w h = (w, tt)
  set_entry-KeysWanted desired key o (e ∷ es) w (k, h) = elim (Bool-cases (same_text e.key key)) [
    | inl t ↦ rw t (k, h)
    | inr t ↦ rw t (k, set_entry-KeysWanted desired key o es w h)
  ]

  recorded-KeysWanted :
      (desired : List Level) (side : Side) (b : Level) (answer : Option ClientOrder)
      (es : List Entry)
      → wants desired b.price ≡ true
      → KeysWanted desired es
      → KeysWanted desired (recorded client side b answer es)
  recorded-KeysWanted desired side b none es w h = h
  recorded-KeysWanted desired side b (some o) es w h =
      set_entry-KeysWanted desired b.price (active_of side o) es w h

  place_missing-KeysWanted :
      (side : Side) (desired bs : List Level) (es : List Entry) (calls : ℕ)
      → All (λ b. wants desired b.price ≡ true) bs
      → KeysWanted desired es
      → KeysWanted desired (place_missing client side bs es calls).0
  unfolding place_missing
  place_missing-KeysWanted side desired [] es calls w h = h
  place_missing-KeysWanted side desired (b ∷ bs) es calls (w, ws) h =
      elim (Bool-cases (has es b.price)) [
        | inl t ↦ rw t (place_missing-KeysWanted side desired bs es calls ws h)
        | inr t ↦
            let answer = client.place_limit_order calls side b in
            rw t (
              place_missing-KeysWanted side desired bs (recorded client side b answer es)
                (suc calls) ws (recorded-KeysWanted desired side b answer es w h))
      ]

  -- After an update of the quotes every entry stands under a price that the quote has on its side,
  -- whatever the exchange answered.
  pub update_quotes-KeysWanted :
      (quote : Quote) (m : OrderManager)
      → KeysWanted quote.bids (update_quotes client quote m).active_bids
        × KeysWanted quote.asks (update_quotes client quote m).active_asks
  unfolding update_quotes
  update_quotes-KeysWanted quote m =
      let bids = cancel_stale client quote.bids m.active_bids m.calls in
      let asks = cancel_stale client quote.asks m.active_asks bids.1 in
      let bids' = place_missing client Side.buy quote.bids bids.0 asks.1 in
      (
        place_missing-KeysWanted Side.buy quote.bids quote.bids bids.0 asks.1
            (wants_self quote.bids) (cancel_stale-KeysWanted quote.bids m.active_bids m.calls),
        place_missing-KeysWanted Side.sell quote.asks quote.asks asks.0 bids'.1
            (wants_self quote.asks) (cancel_stale-KeysWanted quote.asks m.active_asks bids.1),
      )
