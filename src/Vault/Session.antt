-- ===== src/Vault/Session.antt =====
-- The token that the client holds over a series of calls.
use axiler_fin.Base.{
  String, ◌≡◌, refl, ap, ◌∙◌, subst, ◌+ˢ◌, Option, none, some, List, [], ◌∷◌, Result, ok, err,
}
use axiler_fin.Vault.Interface.{Api, ApiLaws, Secret, SecretAuth}
use axiler_fin.Vault.{
  adopt, logged_in, login_payload, auth_app_role, get_secret, get_database_credentials, renew_token,
  health, to_string,
}

-- A call of one of the client's methods.
pub data Call : Type 0 where
  login : String → String → Call
  secret : String → Call
  credentials : String → Call
  renew check : Call

module _ (api : Api) where
  open api use {Client}

  -- The client after a call, and the token that a login returned, if the call was one that succeeded.
  abbrev pub issued : Result String → Option String
  issued (ok token) = some token
  issued (err e) = none

  pub perform : Call → Client → Option String × Client
  perform (login role_id secret_id) c =
      let (result, c') = auth_app_role api role_id secret_id c in (issued result, c')
  perform (secret path) c = (none, (get_secret api path c).1)
  perform (credentials role) c = (none, (get_database_credentials api role c).1)
  perform renew c = (none, (renew_token api c).1)
  perform check c = (none, (health api c).1)

  abbrev pub or_last : Option String → String → String
  or_last answer last = elim answer [ none ↦ last | some token ↦ token ]

  -- The client after a series of calls, and the token of the last login that succeeded, or else the
  -- given one.
  pub session : List Call → String → Client → String × Client
  session [] last c = (last, c)
  session (call ∷ calls) last c =
      let (answer, c') = perform call c in session calls (or_last answer last) c'

  module _ (laws : ApiLaws api) where
    -- After one call the client holds what a login returned, or what it held, and its address.
    abbrev Kept : Option String × Client → Client → Type 0
    Kept (answer, c') c =
        (api.token c' ≡ or_last answer (api.token c)) × (api.address c' ≡ api.address c)

    adopt-Kept :
        (auth : Option SecretAuth) (c : Client)
        → let (result, c') = adopt api auth c in Kept (issued result, c') c
    adopt-Kept none c = (refl, refl)
    adopt-Kept (some auth) c =
        (laws.token-set_token auth.client_token c, laws.address-set_token auth.client_token c)

    logged_in-Kept :
        (answer : Result (Option Secret)) (c : Client)
        → let (result, c') = logged_in api answer c in Kept (issued result, c') c
    logged_in-Kept (err e) c = (refl, refl)
    logged_in-Kept (ok none) c = (refl, refl)
    logged_in-Kept (ok (some s)) c = adopt-Kept s.auth c

    perform-Kept : (call : Call) (c : Client) → Kept (perform call c) c
    unfolding perform auth_app_role get_secret get_database_credentials renew_token health
    perform-Kept (login role_id secret_id) c =
        let (answer, c') = api.write "auth/approle/login" (login_payload api role_id secret_id) c in
        let (token, address) = logged_in-Kept answer c' in
        (
          subst
              (λ t.
                api.token (logged_in api answer c').1
                ≡ or_last (issued (logged_in api answer c').0) t)
              (laws.token-write "auth/approle/login" (login_payload api role_id secret_id) c) token,
          address ∙ laws.address-write "auth/approle/login" (login_payload api role_id secret_id) c,
        )
    perform-Kept (secret path) c = (laws.token-read path c, laws.address-read path c)
    perform-Kept (credentials role) c = (laws.token-read _ c, laws.address-read _ c)
    perform-Kept renew c = (laws.token-renew_self 3600 c, laws.address-renew_self 3600 c)
    perform-Kept check c = (laws.token-sys_health c, laws.address-sys_health c)

    session-holds :
        (calls : List Call) (last : String) (c : Client)
        → api.token c ≡ last
        → let (last', c') = session calls last c in
          (api.token c' ≡ last') × (api.address c' ≡ api.address c)
    unfolding session
    session-holds [] last c held = (held, refl)
    session-holds (call ∷ calls) last c held =
        let (answer, c') = perform call c in
        let (token, address) = perform-Kept call c in
        let (token', address') =
          session-holds calls (or_last answer last) c' (token ∙ ap (or_last answer) held) in
        (token', address' ∙ address)

    -- Through any series of calls, the client's token is the one of the last successful `AuthAppRole`,
    -- or the first one if there was none: a login that fails, a read, a renewal and a health check leave
    -- it alone; and the text of `String` stays the same, so that it shows nothing of the tokens.
    pub session-token :
        (calls : List Call) (c : Client)
        → let (last, c') = session calls (api.token c) c in
          (api.token c' ≡ last) × (to_string api c' ≡ to_string api c)
    unfolding to_string
    session-token calls c =
        let (token, address) = session-holds calls (api.token c) c refl in
        (token, ap (λ a. "VaultClient{addr: " +ˢ a +ˢ "}") address)
