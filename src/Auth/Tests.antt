-- ===== src/Auth/Tests.antt =====
-- A registration and a login, with a hash that only prefixes the password.
use perpetual_futures_exchan.Prelude.{[], ◌∷◌}
use perpetual_futures_exchan.Text.{Text}
use perpetual_futures_exchan.Injector.{same_text}
use perpetual_futures_exchan.Injector.Sync.{same_text_refl}
use perpetual_futures_exchan.Auth.{Accounts, Crypto, IsCrypto, register_user, login_user}
use perpetual_futures_exchan.Auth.Login.{
  LogsIn, Registers, login_user-LogsIn, register_user-Registers,
}

abbrev prefixing : Crypto
prefixing = record {
  hash = λ salt p. b'h' ∷ p;
  compare = λ p h. same_text (b'h' ∷ p) h;
  sign_token = λ id email role. email;
}

prefixing-IsCrypto : IsCrypto prefixing
prefixing-IsCrypto = record { compare_own = λ salt p. same_text_refl (b'h' ∷ p) }

abbrev nobody : Accounts
nobody = record { users = []; next_id = 1; clock = 4 }

abbrev mail : Text
mail = b'a' ∷ b'@' ∷ b'b' ∷ []

abbrev secret : Text
secret = b's' ∷ []

register_user-Registers_example :
    Registers prefixing mail secret nobody (register_user prefixing mail secret mail nobody)
register_user-Registers_example =
    register_user-Registers prefixing mail secret mail nobody prefixing-IsCrypto

login_user-LogsIn_example :
    LogsIn prefixing mail secret
      (register_user prefixing mail secret mail nobody).1
      (login_user prefixing mail secret (register_user prefixing mail secret mail nobody).1)
login_user-LogsIn_example =
    login_user-LogsIn prefixing mail secret (register_user prefixing mail secret mail nobody).1
