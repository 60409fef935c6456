-- ===== src/Vault/Credentials.antt =====
-- When the client returns database credentials.
use axiler_fin.Base.{
  String, ◌≡◌, ◌↔◌, refl, Option, none, some, Dict, lookup, ok, arith, Option-cases, Result-cases,
  inl, inr, ◌+ˢ◌,
}
use axiler_fin.Vault.Interface.{Api, Value, text, other, Secret}
use axiler_fin.Vault.{both_texts, credentials_of, get_database_credentials}

-- The two assertions succeed on texts alone.
texts-ok :
    (u p : Option Value) (username password : String)
    → both_texts u p ≡ ok (username, password)
    → (u ≡ some (text username)) × (p ≡ some (text password))
texts-ok none p username password h = absurd (ground arith)
texts-ok (some other) p username password h = absurd (ground arith)
texts-ok (some (text x)) none username password h = absurd (ground arith)
texts-ok (some (text x)) (some other) username password h = absurd (ground arith)
texts-ok (some (text x)) (some (text y)) username password h = (ground arith, ground arith)

module _ (api : Api) where
  open api use {Client}

  -- Vault answers the read for the role with a secret that holds both texts.
  pub record Granted (role : String) (c : Client) (username password : String) : Type 0 where
    pub secret : Secret
    pub values : Dict Value
    pub answer : (api.read ("database/creds/" +ˢ role) c).0 ≡ ok (some secret)
    pub present : secret.contents ≡ some values
    pub has_username : lookup "username" values ≡ some (text username)
    pub has_password : lookup "password" values ≡ some (text password)

  credentials_of-Granted :
      (role : String) (c : Client) (username password : String) (secret : Secret)
      (values : Dict Value)
      → (api.read ("database/creds/" +ˢ role) c).0 ≡ ok (some secret)
      → secret.contents ≡ some values
      → both_texts (lookup "username" values) (lookup "password" values) ≡ ok (username, password)
      → Granted role c username password
  credentials_of-Granted role c username password secret values read present h =
      let (has_username, has_password) =
        texts-ok (lookup "username" values) (lookup "password" values) username password h in
      record {
        secret = secret;
        values = values;
        answer = read;
        present = present;
        has_username = has_username;
        has_password = has_password;
      }

  secret-Granted :
      (role : String) (c : Client) (username password : String) (secret : Option Secret)
      → (api.read ("database/creds/" +ˢ role) c).0 ≡ ok secret
      → credentials_of api role (ok secret) ≡ ok (username, password)
      → Granted role c username password
  secret-Granted role c username password none read h = absurd (ground arith)
  secret-Granted role c username password (some s) read h = elim (Option-cases s.contents) [
    | inl empty ↦ absurd (ground arith)
    | inr (values, present) ↦
        credentials_of-Granted role c username password s values read present (ground arith)
  ]

  -- Credentials are returned exactly if Vault answers the read of the role's path with a secret that has
  -- a text as username and a text as password, and then they are these two texts.
  pub get_database_credentials_iff :
      (role : String) (c : Client) (username password : String)
      → ((get_database_credentials api role c).0 ≡ ok (username, password))
        ↔ Granted role c username password
  unfolding get_database_credentials
  get_database_credentials_iff role c username password = (
    λ h. elim (Result-cases (api.read ("database/creds/" +ˢ role) c).0) [
      | inl (e, broken) ↦ absurd (ground arith)
      | inr (secret, read) ↦ secret-Granted role c username password secret read (rw read at h)
    ],
    λ g. rw (g.answer, g.present, g.has_username, g.has_password) refl,
  )
