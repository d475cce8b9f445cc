-- ===== src/Auth/Login.antt =====
-- Who is registered can log in, and only with a matching password.
use perpetual_futures_exchan.Prelude.{
  suc, ◌≡◌, refl, ap, true, none, some, List, [], ◌∷◌, ◌++◌, arith, Bool-cases, Option-cases, inl,
  inr,
}
use perpetual_futures_exchan.Text.{Text}
use perpetual_futures_exchan.Store.{Role}
use perpetual_futures_exchan.Store.Rows.{first, update_rows}
use perpetual_futures_exchan.Injector.Sync.{same_text_refl}
use perpetual_futures_exchan.Auth.{
  User, Accounts, Crypto, IsCrypto, AuthResult, granted, denied, email_already_registered, session,
  has_email, has_user_id, logged_in, new_user, register_user, login_user,
}

first-new :
    (u : User) (rows : List User)
    → first (has_email u.email) rows ≡ none
    → first (has_email u.email) (rows ++ (u ∷ [])) ≡ some u
first-new u [] e = rw (same_text_refl u.email)
first-new u (r ∷ rows) e = ground (arith, first-new u rows)

module _ (crypto : Crypto) where
  -- What a login has found, by how it ended.
  abbrev pub LogsIn : (email password : Text) → Accounts → AuthResult × Accounts → Type 0
  LogsIn email password a (granted s, after) =
      (u : User) × (first (has_email email) a.users ≡ some u)
      × (crypto.compare password u.password_hash ≡ true)
      × (u.trading_enabled ≡ true)
      × (s ≡ session crypto u)
      × (after.next_id ≡ a.next_id)
  LogsIn email password a (denied e, after) = after ≡ a

  module _ (email password : Text) (a : Accounts) where
    granted_run :
        (u : User)
        → first (has_email email) a.users ≡ some u
        → crypto.compare password u.password_hash ≡ true
        → u.trading_enabled ≡ true
        → login_user crypto email password a ≡ (
          granted (session crypto u),
          record a { users = update_rows (has_user_id u.id) (logged_in crypto a.clock) a.users },
        )
    unfolding login_user
    granted_run u found right enabled = rw (found, right, enabled)

    -- A login is granted only for the account of this e-mail address, with a password that matches its
    -- hash, and while its trading is enabled; the session is that account's. A login that is denied
    -- changes nothing.
    pub login_user-LogsIn : LogsIn email password a (login_user crypto email password a)
    unfolding login_user
    login_user-LogsIn = elim (Option-cases (first (has_email email) a.users)) [
      | inl missing ↦ rw missing
      | inr (u, found) ↦ elim (Bool-cases (crypto.compare password u.password_hash)) [
        | inr wrong ↦ rw (found, wrong)
        | inl right ↦ elim (Bool-cases u.trading_enabled) [
          | inr disabled ↦ rw (found, right, disabled)
          | inl enabled ↦
              rw (granted_run u found right enabled) (u, found, right, enabled, refl, refl)
        ]
      ]
    ]

  -- What a registration has done, by how it ended.
  abbrev pub Registers : (email password : Text) → Accounts → AuthResult × Accounts → Type 0
  Registers email password a (granted s, after) =
      (first (has_email email) a.users ≡ none)
      × (s.id ≡ a.next_id)
      × (s.email ≡ email)
      × (s.role ≡ Role.user)
      × ((login_user crypto email password after).0 ≡ granted s)
      × ((q name : Text)
          → register_user crypto email q name after ≡ (denied email_already_registered, after))
  Registers email password a (denied e, after) = (e ≡ email_already_registered) × (after ≡ a)

  module _ (email password name : Text) (a : Accounts) where
    taken_run :
        (u : User)
        → first (has_email email) a.users ≡ some u
        → register_user crypto email password name a ≡ (denied email_already_registered, a)
    unfolding register_user
    taken_run u found = rw found

    new_run :
        first (has_email email) a.users ≡ none
        → register_user crypto email password name a ≡ (
          granted (session crypto (new_user crypto email password name a)),
          record a {
            users = a.users ++ (new_user crypto email password name a ∷ []);
            next_id = suc a.next_id;
          },
        )
    unfolding register_user
    new_run free = rw free

  -- A registration is refused for an e-mail address that is taken, and then changes nothing.
  -- Otherwise, with a password hash that its own password matches, the new account is an ordinary
  -- user's with a new identifier, the same password logs in to it, and its address is taken from then
  -- on.
  pub register_user-Registers :
      (email password name : Text) (a : Accounts)
      → IsCrypto crypto
      → Registers email password a (register_user crypto email password name a)
  register_user-Registers email password name a laws =
      elim (Option-cases (first (has_email email) a.users)) [
        | inr (u, found) ↦ rw (taken_run email password name a u found) (refl, refl)
        | inl free ↦
            let u = new_user crypto email password name a in
            let after : Accounts = record a {
              users = a.users ++ (u ∷ []);
              next_id = suc a.next_id;
            } in
            let listed : first (has_email email) after.users ≡ some u = first-new u a.users free in
            let login =
              granted_run email password after u listed (laws.compare_own a.next_id password)
                refl in
            rw (new_run email password name a free) (
              free,
              refl,
              refl,
              refl,
              ap (λ (r : AuthResult × Accounts). r.0) login,
              λ q n. taken_run email q n after u listed,
            )
      ]
