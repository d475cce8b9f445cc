-- ===== src/Injector/Tests.antt =====
-- Quotes of one level a side, on a stream that takes everything or nothing.
use perpetual_futures_exchan.Prelude.{ℕ, ◌≡◌, refl, Bool, true, false, [], ◌∷◌}
use perpetual_futures_exchan.Store.Sample.{n1, n2, n3, n9}
use perpetual_futures_exchan.Injector.{Quote, Injector, update_quotes}
use perpetual_futures_exchan.Injector.Sync.{Held, IsSynced, update_quotes-IsSynced}

abbrev quote : Quote
quote = record {
  bids = record { price = n2; quantity = n1 } ∷ [];
  asks = record { price = n9; quantity = n1 } ∷ [];
}

-- A bid at another price is active.
abbrev injector : Injector
injector = record {
  market = 500;
  active_bids = record { id = 1; price = n3; quantity = n1 } ∷ [];
  active_asks = [];
  stream = record { taken = []; tried = 0; next_id = 7 };
}

abbrev up : ℕ → Bool
up n = true

-- A cancel that fails is not tried again: the order is no longer active here.
lost_cancel_run : (update_quotes (λ n. false) quote injector).active_bids ≡ []
unfolding update_quotes
lost_cancel_run = refl

update_quotes-IsSynced_example :
    let after = update_quotes up quote injector in
    IsSynced up quote after
    × (((n : ℕ) → up n ≡ true)
        → Held after.active_bids quote.bids
          × Held after.active_asks quote.asks
          × (update_quotes up quote after ≡ after))
update_quotes-IsSynced_example = update_quotes-IsSynced up quote injector
