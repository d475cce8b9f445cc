-- ===== src/OrderManager/Reconcile.antt =====
-- What the manager knows after a reconciliation.
use perpetual_futures_exchan.Prelude.{
  suc, ◌≡◌, ◌≢◌, refl, sym, ap, ◌∙◌, Bool, true, false, ◌&&◌, Option, none, some, List, [], ◌∷◌,
  if◌then◌else◌, arith, Bool-cases, inl, inr,
}
use perpetual_futures_exchan.Text.{Text}
use perpetual_futures_exchan.Store.{Side}
use perpetual_futures_exchan.Injector.{same_text}
use perpetual_futures_exchan.Injector.Sync.{same_text_refl}
use perpetual_futures_exchan.OrderManager.{
  ClientOrder, ActiveOrder, Client, Entry, OrderManager, set_entry, price_text, active_of, track_on,
  track, reconcile,
}

abbrev pub entries : Side → OrderManager → List Entry
entries Side.buy m = m.active_bids
entries Side.sell m = m.active_asks

-- `Map.get`
abbrev pub entry_at : Text → List Entry → Option ActiveOrder
entry_at key [] = none
entry_at key (e ∷ es) = if same_text e.key key then some e.order else entry_at key es

abbrev pub on_side : Side → Side → Bool
on_side Side.buy Side.buy = true
on_side Side.buy Side.sell = false
on_side Side.sell Side.buy = false
on_side Side.sell Side.sell = true

abbrev pub or_earlier : Option ActiveOrder → Option ActiveOrder → Option ActiveOrder
or_earlier none earlier = earlier
or_earlier (some o) earlier = some o

abbrev pub at_price : Side → Text → ClientOrder → Option ActiveOrder
at_price s key o =
    if on_side s o.side && same_text (price_text o) key then some (active_of o.side o) else none

-- The last of the orders on a side and at a price.
abbrev pub last_at : Side → Text → List ClientOrder → Option ActiveOrder
last_at s key [] = none
last_at s key (o ∷ os) = or_earlier (last_at s key os) (at_price s key o)

or_earlier_assoc :
    (a b c : Option ActiveOrder) → or_earlier a (or_earlier b c) ≡ or_earlier (or_earlier a b) c
or_earlier_assoc none b c = refl
or_earlier_assoc (some o) b c = refl

or_earlier-none : (a : Option ActiveOrder) → or_earlier a none ≡ a
or_earlier-none none = refl
or_earlier-none (some o) = refl

same_text_sound : (s t : Text) → same_text s t ≡ true → s ≡ t
same_text_sound [] [] h = refl
same_text_sound [] (b ∷ t) h = cc
same_text_sound (a ∷ s) [] h = cc
same_text_sound (a ∷ s) (b ∷ t) h = ground (arith, same_text_sound s t)

differ : (s t : Text) → s ≡ t → same_text s t ≢ false
differ s t e h = true_is_not_false (sym (same_text_refl t) ∙ ap (λ x. same_text x t) (sym e) ∙ h)
  where
    true_is_not_false : true ≢ false
    true_is_not_false e = cc

entry_at-set_entry :
    (key k : Text) (o : ActiveOrder) (es : List Entry)
    → entry_at k (set_entry key o es)
      ≡ or_earlier (if same_text key k then some o else none) (entry_at k es)
unfolding set_entry
entry_at-set_entry key k o [] = ground arith
entry_at-set_entry key k o (e ∷ es) = elim (Bool-cases (same_text e.key key)) [
  | inl t ↦
      let same = same_text_sound e.key key t in
      rw t (elim (Bool-cases (same_text key k)) [
        | inl u ↦ rw (same, u) refl
        | inr u ↦ rw (same, u) refl
      ])
  | inr t ↦ elim (Bool-cases (same_text e.key k)) [
    | inl u ↦ elim (Bool-cases (same_text key k)) [
      | inl v ↦
          let same = same_text_sound e.key k u ∙ sym (same_text_sound key k v) in
          absurd (differ e.key key same t)
      | inr v ↦ rw (t, u, v) refl
    ]
    | inr u ↦ rw (t, u) (entry_at-set_entry key k o es)
  ]
]

track_on-entry_at :
    (s t : Side) (k : Text) (o : ClientOrder) (m : OrderManager)
    → entry_at k (entries s (track_on t o m))
      ≡ or_earlier
          (if on_side s t && same_text (price_text o) k then some (active_of o.side o) else none)
          (entry_at k (entries s m))
track_on-entry_at Side.buy Side.buy k o m =
    entry_at-set_entry (price_text o) k (active_of o.side o) m.active_bids
track_on-entry_at Side.sell Side.sell k o m =
    entry_at-set_entry (price_text o) k (active_of o.side o) m.active_asks
track_on-entry_at Side.buy Side.sell k o m = refl
track_on-entry_at Side.sell Side.buy k o m = refl

track-entry_at :
    (s : Side) (k : Text) (os : List ClientOrder) (m : OrderManager)
    → entry_at k (entries s (track os m)) ≡ or_earlier (last_at s k os) (entry_at k (entries s m))
unfolding track
track-entry_at s k [] m = refl
track-entry_at s k (o ∷ os) m =
    track-entry_at s k os (track_on o.side o m)
    ∙ ap (λ x. or_earlier (last_at s k os) x) (track_on-entry_at s o.side k o m)
    ∙ or_earlier_assoc (last_at s k os) (at_price s k o) (entry_at k (entries s m))

abbrev empty : OrderManager → OrderManager
empty m = record m {
  active_bids = [];
  active_asks = [];
  is_reconciling = true;
  calls = suc m.calls;
}

nothing_left : (s : Side) (k : Text) (m : OrderManager) → entry_at k (entries s (empty m)) ≡ none
nothing_left Side.buy k m = refl
nothing_left Side.sell k m = refl

free-entries :
    (s : Side) (m : OrderManager) → entries s (record m { is_reconciling = false }) ≡ entries s m
free-entries Side.buy m = refl
free-entries Side.sell m = refl

module _ (client : Client) where
  -- What `reconcile` has done, by what the exchange answered.
  abbrev pub Reconciles : OrderManager → Option (List ClientOrder) → Bool × OrderManager → Type 0
  Reconciles m none (returned, after) =
      (returned ≡ false) × (after ≡ record m { calls = suc m.calls; is_reconciling = false })
  Reconciles m (some os) (returned, after) =
      (returned ≡ true)
      × (after.is_reconciling ≡ false)
      × ((s : Side) (price : Text) → entry_at price (entries s after) ≡ last_at s price os)

  reconcile-Reconciles_at :
      (m : OrderManager) (answer : Option (List ClientOrder))
      → m.is_reconciling ≡ false
      → client.get_open_orders m.calls ≡ answer
      → Reconciles m answer (reconcile client m)
  unfolding reconcile
  reconcile-Reconciles_at m none free failed = rw (free, failed) (refl, refl)
  reconcile-Reconciles_at m (some os) free answered =
      rw (free, answered)
        (
          refl,
          refl,
          λ s price.
              ap (entry_at price) (free-entries s (track os (empty m)))
              ∙ track-entry_at s price os (empty m)
              ∙ ap (or_earlier (last_at s price os)) (nothing_left s price m)
              ∙ or_earlier-none (last_at s price os),
        )

  -- A reconciliation while another one runs does nothing. Otherwise, if the exchange answers, the
  -- entry of a side at a price is from then on the last of the open orders in the answer that has
  -- that side and that price, with its quantity, and there is none where no such order is: what was
  -- known before is gone. Every order in the answer counts, whatever its client
  -- order id, also one without the market maker's prefix `MM-`. If the exchange fails, the call throws
  -- and the entries stay. In either case the manager is free for the next reconciliation.
  pub reconcile-Reconciles :
      (m : OrderManager)
      → (m.is_reconciling ≡ true → reconcile client m ≡ (true, m))
        × (m.is_reconciling ≡ false
            → Reconciles m (client.get_open_orders m.calls) (reconcile client m))
  unfolding reconcile
  reconcile-Reconciles m = (
    (λ busy. rw busy),
    λ free. reconcile-Reconciles_at m (client.get_open_orders m.calls) free refl,
  )
