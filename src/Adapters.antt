-- ===== src/Adapters.antt =====
-- src/adapters: the builders of execution contexts and what they share.
pub mod Method
pub mod Web
pub mod Cli
pub mod Validation
pub mod Display
use ripht_php_sapi.Prelude.{Result, ok, err}
use ripht_php_sapi.Text.{Str}

-- src/adapters/web.rs.
pub data WebRequestError : Type 0 where
  missing_method : WebRequestError
  invalid_method : Str → WebRequestError
  script_not_found : Str → WebRequestError

-- src/adapters/cli.rs.
pub data CliRequestError : Type 0 where
  script_not_found : Str → CliRequestError

-- src/adapters/mod.rs.
pub data AdapterError : Type 0 where
  script_not_found : Str → AdapterError
  missing_configuration : Str → AdapterError
  invalid_configuration : Str → Str → Str → AdapterError
  web : WebRequestError → AdapterError
  cli : CliRequestError → AdapterError

infixl 5 ◌>>=◌ ◌>>◌
abbrev pub ◌>>=◌ {ℓ} : {E A B : Type ℓ} → Result E A → (A → Result E B) → Result E B
ok a >>= f = f a
err e >>= f = err e

abbrev pub ◌>>◌ : {E B : Type 0} → Result E (Unit {0}) → Result E B → Result E B
m >> k = m >>= λ _. k

-- `map_err`.
abbrev pub map_err : {E F A : Type 0} → (E → F) → Result E A → Result F A
map_err f (ok a) = ok a
map_err f (err e) = err (f e)
