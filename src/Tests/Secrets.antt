-- ===== src/Tests/Secrets.antt =====
-- The client for secrets at concrete inputs.
use axiler_fin.Base.{[], ◌∷◌, ◌≡◌, ◌↔◌, ok}
use axiler_fin.Vault.{to_string, get_database_credentials}
use axiler_fin.Vault.Session.{
  login as log_in, credentials as lease, renew, check, session, session-token,
}
use axiler_fin.Vault.Credentials.{Granted, get_database_credentials_iff}
use axiler_fin.Tests.Outside.{one_role, one_role-laws}

session-token_example :
    let calls = log_in "role" "secret" ∷ (lease "app" ∷ (renew ∷ (check ∷ []))) in
    let (last, c') = session one_role calls "old" ("http://vault:8200", "old") in
    (c'.1 ≡ last) × (to_string one_role c' ≡ to_string one_role ("http://vault:8200", "old"))
session-token_example =
    session-token one_role one_role-laws
      (log_in "role" "secret" ∷ (lease "app" ∷ (renew ∷ (check ∷ [])))) ("http://vault:8200", "old")

get_database_credentials_iff_example :
    ((get_database_credentials one_role "app" ("http://vault:8200", "s.1")).0 ≡ ok ("app", "pw"))
    ↔ Granted one_role "app" ("http://vault:8200", "s.1") "app" "pw"
get_database_credentials_iff_example =
    get_database_credentials_iff one_role "app" ("http://vault:8200", "s.1") "app" "pw"
