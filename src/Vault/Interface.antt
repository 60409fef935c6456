-- ===== src/Vault/Interface.antt =====
-- What pkg/vault/vault.go uses of github.com/hashicorp/vault/api, and the documented behaviour that is
-- relied on.
use axiler_fin.Base.{ℕ, String, Bool, Option, ◌≡◌, Dict, Result}

-- A value of a `map[string]interface{}`: a text, or anything else.
pub data Value : Type 0 where
  text : String → Value
  other : Value

pub record SecretAuth : Type 0 where
  pub client_token : String
  pub lease_duration : ℕ

-- `contents` is the field `Data`. Both pointers may be nil.
pub record Secret : Type 0 where
  pub contents : Option (Dict Value)
  pub auth : Option SecretAuth
  pub lease_duration : ℕ

-- A call returns the client with the server as it leaves them. A secret may be nil.
pub record Api : Type 1 where
  pub Client : Type 0
  -- `NewClient`, with the default configuration at an address
  pub new_client : String → Result Client
  pub address : Client → String
  -- `Token` and `SetToken`
  pub token : Client → String
  pub set_token : String → Client → Client
  -- `Logical().Write` and `Logical().Read`
  pub write : String → Dict Value → Client → Result (Option Secret) × Client
  pub read : String → Client → Result (Option Secret) × Client
  -- `Auth().Token().RenewSelf`
  pub renew_self : ℕ → Client → Result (Option Secret) × Client
  -- `Sys().Health`: whether Vault is sealed
  pub sys_health : Client → Result Bool × Client

-- Only `SetToken` sets the client's token, and no call changes its address.
pub record ApiLaws (api : Api) : Type 0 where
  pub token-set_token : (t : String) (c : api.Client) → api.token (api.set_token t c) ≡ t
  pub address-set_token :
      (t : String) (c : api.Client) → api.address (api.set_token t c) ≡ api.address c
  pub token-write :
      (path : String) (payload : Dict Value) (c : api.Client)
      → api.token (api.write path payload c).1 ≡ api.token c
  pub address-write :
      (path : String) (payload : Dict Value) (c : api.Client)
      → api.address (api.write path payload c).1 ≡ api.address c
  pub token-read : (path : String) (c : api.Client) → api.token (api.read path c).1 ≡ api.token c
  pub address-read :
      (path : String) (c : api.Client) → api.address (api.read path c).1 ≡ api.address c
  pub token-renew_self : (n : ℕ) (c : api.Client) → api.token (api.renew_self n c).1 ≡ api.token c
  pub address-renew_self :
      (n : ℕ) (c : api.Client) → api.address (api.renew_self n c).1 ≡ api.address c
  pub token-sys_health : (c : api.Client) → api.token (api.sys_health c).1 ≡ api.token c
  pub address-sys_health : (c : api.Client) → api.address (api.sys_health c).1 ≡ api.address c
