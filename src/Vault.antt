-- ===== src/Vault.antt =====
-- pkg/vault/vault.go: the client for secrets and identity. A method takes the client's state and
-- returns its result with the state afterwards.
pub mod Interface
pub mod Session
pub mod Credentials
use axiler_fin.Base.{
  String, Bool, true, false, Option, none, some, List, [], ◌∷◌, Dict, lookup, Result, ok, err,
  ◌>>=◌, ◌+ˢ◌, if◌then◌else◌,
}
use axiler_fin.Vault.Interface.{Api, Value, text, other, Secret, SecretAuth}

-- What a call of `RenewToken` comes to: nil, an error, or a nil dereference.
pub data Renewal : Type 0 where
  renewed : Renewal
  failed : String → Renewal
  panicked : Renewal

-- `v.(string)` with the test of its `ok`
abbrev pub as_text : Option Value → String → Result String
as_text none message = err message
as_text (some (text s)) message = ok s
as_text (some other) message = err message

-- The two assertions on the values under `username` and `password`.
abbrev pub both_texts : Option Value → Option Value → Result (String × String)
both_texts u p = do
  username ← as_text u "invalid username in database credentials"
  password ← as_text p "invalid password in database credentials"
  ok (username, password)

module _ (api : Api) where
  open api use {Client}

  -- `New`, up to the logger
  unfoldable pub new : String → Result Client
  new addr = elim (api.new_client addr) [
    | ok client ↦ ok client
    | err e ↦ err ("failed to create vault client: " +ˢ e)
  ]

  abbrev pub login_payload : String → String → Dict Value
  login_payload role_id secret_id = ("role_id", text role_id) ∷ ("secret_id", text secret_id) ∷ []

  -- The part of `AuthAppRole` after the nil tests.
  abbrev pub adopt : Option SecretAuth → Client → Result String × Client
  adopt none c = (err "no auth info returned from vault", c)
  adopt (some auth) c = (ok auth.client_token, api.set_token auth.client_token c)

  abbrev pub logged_in : Result (Option Secret) → Client → Result String × Client
  logged_in (err e) c = (err ("approle auth failed: " +ˢ e), c)
  logged_in (ok none) c = (err "no auth info returned from vault", c)
  logged_in (ok (some secret)) c = adopt secret.auth c

  -- `AuthAppRole`
  unfoldable pub auth_app_role : String → String → Client → Result String × Client
  auth_app_role role_id secret_id c =
      let (answer, c') = api.write "auth/approle/login" (login_payload role_id secret_id) c in
      logged_in answer c'

  abbrev pub secret_data : String → Result (Option Secret) → Result (Dict Value)
  secret_data path (err e) = err ("failed to read secret at " +ˢ path +ˢ ": " +ˢ e)
  secret_data path (ok none) = err ("secret not found at path: " +ˢ path)
  secret_data path (ok (some secret)) = elim secret.contents [
    | none ↦ err ("secret has no data at path: " +ˢ path)
    | some values ↦ ok values
  ]

  -- `GetSecret`
  unfoldable pub get_secret : String → Client → Result (Dict Value) × Client
  get_secret path c = let (answer, c') = api.read path c in (secret_data path answer, c')

  abbrev pub credentials_of : String → Result (Option Secret) → Result (String × String)
  credentials_of role (err e) = err ("failed to get db creds for role " +ˢ role +ˢ ": " +ˢ e)
  credentials_of role (ok none) = err ("no database credentials returned for role: " +ˢ role)
  credentials_of role (ok (some secret)) = elim secret.contents [
    | none ↦ err ("no database credentials returned for role: " +ˢ role)
    | some values ↦ both_texts (lookup "username" values) (lookup "password" values)
  ]

  -- `GetDatabaseCredentials`
  unfoldable pub get_database_credentials : String → Client → Result (String × String) × Client
  get_database_credentials role c =
      let (answer, c') = api.read ("database/creds/" +ˢ role) c in (credentials_of role answer, c')

  -- The log line reads `secret.Auth.LeaseDuration` with no nil test.
  abbrev pub renewal : Result (Option Secret) → Renewal
  renewal (err e) = failed ("token renewal failed: " +ˢ e)
  renewal (ok none) = panicked
  renewal (ok (some secret)) = elim secret.auth [ none ↦ panicked | some auth ↦ renewed ]

  -- `RenewToken`
  unfoldable pub renew_token : Client → Renewal × Client
  renew_token c = let (answer, c') = api.renew_self 3600 c in (renewal answer, c')

  -- `Health`: none is nil. The answer tells whether Vault is sealed.
  abbrev pub health_error : Result Bool → Option String
  health_error (err e) = some ("vault health check failed: " +ˢ e)
  health_error (ok sealed) = if sealed then some "vault is sealed" else none

  unfoldable pub health : Client → Option String × Client
  health c = let (answer, c') = api.sys_health c in (health_error answer, c')

  -- `String`
  unfoldable pub to_string : Client → String
  to_string c = "VaultClient{addr: " +ˢ api.address c +ˢ "}"
