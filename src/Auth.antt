-- ===== src/Auth.antt =====
-- Server/src/services/authService.ts, on the table `users`. Passwords, e-mail addresses and names are
-- texts; bcrypt and the signing of tokens are parameters.
pub mod Login
mod Tests
use perpetual_futures_exchan.Prelude.{
  ℕ, suc, ◌≡◌, Bool, true, false, not, Option, none, some, List, [], ◌∷◌, ◌++◌, ◌==◌, if◌then◌else◌,
}
use perpetual_futures_exchan.Text.{Text}
use perpetual_futures_exchan.Store.{Role, KycStatus}
use perpetual_futures_exchan.Store.Rows.{first, update_rows}
use perpetual_futures_exchan.Injector.{same_text}

pub record User : Type 0 where
  pub id : ℕ
  pub email : Text
  pub password_hash : Text
  pub name : Text
  pub role : Role
  pub kyc_status : KycStatus
  pub trading_enabled : Bool
  pub created_at : ℕ
  pub updated_at : ℕ
  pub last_login_at : Option ℕ

pub record Accounts : Type 0 where
  pub users : List User
  pub next_id : ℕ
  pub clock : ℕ

-- `bcrypt.hash` draws a salt, here the n-th; `bcrypt.compare`; `signToken`.
pub record Crypto : Type 0 where
  pub hash : (salt : ℕ) → Text → Text
  pub compare : Text → Text → Bool
  pub sign_token : (user_id : ℕ) → Text → Role → Text

-- A password matches its own hash, whatever the salt.
pub record IsCrypto (crypto : Crypto) : Type 0 where
  pub compare_own : (salt : ℕ) (p : Text) → crypto.compare p (crypto.hash salt p) ≡ true

pub data AuthError : Type 0 where
  email_already_registered invalid_credentials trading_disabled : AuthError

-- The statuses 409, 401 and 403.
unfoldable pub auth_status : AuthError → ℕ
auth_status email_already_registered = 409
auth_status invalid_credentials = 401
auth_status trading_disabled = 403

pub record Session : Type 0 where
  pub token : Text
  pub id : ℕ
  pub email : Text
  pub name : Text
  pub role : Role

pub data AuthResult : Type 0 where
  granted : Session → AuthResult
  denied : AuthError → AuthResult

abbrev pub has_email : Text → User → Bool
has_email email u = same_text u.email email

abbrev pub has_user_id : ℕ → User → Bool
has_user_id id u = u.id == id

-- What `getUserById` returns.
pub record Profile : Type 0 where
  pub id : ℕ
  pub email : Text
  pub name : Text
  pub role : Role
  pub kyc_status : KycStatus
  pub trading_enabled : Bool
  pub created_at : ℕ
  pub last_login_at : Option ℕ

abbrev pub profile : User → Profile
profile u = record {
  id = u.id;
  email = u.email;
  name = u.name;
  role = u.role;
  kyc_status = u.kyc_status;
  trading_enabled = u.trading_enabled;
  created_at = u.created_at;
  last_login_at = u.last_login_at;
}

unfoldable pub get_user_by_id : ℕ → Accounts → Option Profile
get_user_by_id id a = elim (first (has_user_id id) a.users) [
  | none ↦ none
  | some u ↦ some (profile u)
]

module _ (crypto : Crypto) where
  abbrev pub session : User → Session
  session u = record {
    token = crypto.sign_token u.id u.email u.role;
    id = u.id;
    email = u.email;
    name = u.name;
    role = u.role;
  }

  -- The row that an insert makes, with the defaults of its columns.
  abbrev pub new_user : (email password name : Text) → Accounts → User
  new_user email password name a = record {
    id = a.next_id;
    email = email;
    password_hash = crypto.hash a.next_id password;
    name = name;
    role = Role.user;
    kyc_status = KycStatus.not_started;
    trading_enabled = true;
    created_at = a.clock;
    updated_at = a.clock;
    last_login_at = none;
  }

  register_as : User → Option User → Accounts → AuthResult × Accounts
  register_as u (some existing) a = (denied email_already_registered, a)
  register_as u none a =
      (granted (session u), record a { users = a.users ++ (u ∷ []); next_id = suc a.next_id })

  unfoldable pub register_user : (email password name : Text) → Accounts → AuthResult × Accounts
  unfolding register_as
  register_user email password name a =
      register_as (new_user email password name a) (first (has_email email) a.users) a

  abbrev pub logged_in : ℕ → User → User
  logged_in now u = record u { last_login_at = some now; updated_at = now }

  login_as : Text → Option User → Accounts → AuthResult × Accounts
  login_as password none a = (denied invalid_credentials, a)
  login_as password (some u) a =
      if not (crypto.compare password u.password_hash)
      then (denied invalid_credentials, a)
      else (if not u.trading_enabled then (denied trading_disabled, a) else (
        granted (session u),
        record a { users = update_rows (has_user_id u.id) (logged_in a.clock) a.users },
      ))

  unfoldable pub login_user : (email password : Text) → Accounts → AuthResult × Accounts
  unfolding login_as
  login_user email password a = login_as password (first (has_email email) a.users) a
