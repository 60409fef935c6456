-- ===== src/Login/Order.antt =====
-- The login does not depend on the order in which the range visits `credentials`.
use mathlib.Core.List.{Permᴰ, Memᴰ}
use axiler_fin.Base.{
  String, true, false, [], ◌∷◌, Dict, ◌≡◌, refl, sym, ◌∙◌, Option, Option-cases, Bool-cases, arith,
  ◌⊎◌, inl, inr, All, ◌=ˢ◌, eq_iff, lookup, lookup_or,
}
use axiler_fin.Base.Orders.{All-perm, Memᴰ-perm}
use axiler_fin.Models.{AuthRequest}
use axiler_fin.Http.{Request, Body}
use axiler_fin.Auth.{TokenManager}
use axiler_fin.Auth.Interface.{Jwt}
use axiler_fin.Login.{credentials, matches, find_tenant, LoginTimes, handle_login}
use axiler_fin.Login.Issue.{OnlyTenant, find_tenant-OnlyTenant}

-- No entry matches.
abbrev Nobody : AuthRequest → Dict (Dict String) → Type 0
Nobody req = All (λ entry. matches entry.1 req ≡ false)

find_tenant-Nobody :
    (order : Dict (Dict String)) (req : AuthRequest) → Nobody req order → find_tenant order req ≡ ""
unfolding find_tenant
find_tenant-Nobody [] req h = refl
find_tenant-Nobody ((t, c) ∷ rest) req (unlike, h) = rw unlike (find_tenant-Nobody rest req h)

-- One tenant has the credentials, or nobody.
abbrev Settled : AuthRequest → Dict (Dict String) → Type 0
Settled req order =
    Nobody req order
    ⊎ ((entry : String × Dict String) × Memᴰ entry order
        × (matches entry.1 req ≡ true)
        × OnlyTenant entry.0 req order)

abbrev stored : String → String → Dict String
stored api_key secret = ("api_key", api_key) ∷ ("secret", secret) ∷ []

-- Credentials with different API keys do not both match.
apart :
    (req : AuthRequest) (key secret key' secret' : String)
    → (key =ˢ key') ≡ false
    → matches (stored key secret) req ≡ true
    → matches (stored key' secret') req ≡ true
    → ⊥
unfolding matches lookup_or lookup
apart req key secret key' secret' ne h h' =
    ground (arith, eq_iff key req.api_key, eq_iff key' req.api_key, eq_iff key key')

settled : (req : AuthRequest) → Settled req credentials
settled req = elim (Bool-cases (matches (stored "alpha_key_123" "alpha_secret_456") req)) [
  | inl alpha ↦ inr (
    _,
    Memᴰ.head refl,
    alpha,
    (
      λ h. refl,
      (
        λ h. absurd (apart req _ _ _ _ refl alpha h),
        (λ h. absurd (apart req _ _ _ _ refl alpha h), tt),
      ),
    ),
  )
  | inr not_alpha ↦ elim (Bool-cases (matches (stored "beta_key_789" "beta_secret_012") req)) [
    | inl beta ↦ inr (
      _,
      Memᴰ.tail (Memᴰ.head refl),
      beta,
      (
        λ h. absurd (cc (h, not_alpha)),
        (λ h. refl, (λ h. absurd (apart req _ _ _ _ refl beta h), tt)),
      ),
    )
    | inr not_beta ↦ elim (Bool-cases (matches (stored "gamma_key_345" "gamma_secret_678") req)) [
      | inl gamma ↦ inr (
        _,
        Memᴰ.tail (Memᴰ.tail (Memᴰ.head refl)),
        gamma,
        (λ h. absurd (cc (h, not_alpha)), (λ h. absurd (cc (h, not_beta)), (λ h. refl, tt))),
      )
      | inr not_gamma ↦ inl (not_alpha, (not_beta, (not_gamma, tt)))
    ]
  ]
]

Settled-same :
    (req : AuthRequest) {order order' : Dict (Dict String)}
    → Permᴰ order order'
    → Settled req order
    → find_tenant order' req ≡ find_tenant order req
Settled-same req d (inl nobody) =
    find_tenant-Nobody _ req (All-perm _ d nobody) ∙ sym (find_tenant-Nobody _ req nobody)
Settled-same req d (inr ((tenant, creds), mem, match_, only)) =
    find_tenant-OnlyTenant _ req tenant creds (Memᴰ-perm d mem) match_ (All-perm _ d only)
    ∙ sym (find_tenant-OnlyTenant _ req tenant creds mem match_ only)

-- Whatever the order in which the range visits `credentials`, `handleLogin` does the same, for every
-- request.
pub handle_login-order :
    (jwt : Jwt) {F : Type 0} (decode : Body → Option AuthRequest) (tm : TokenManager jwt)
    (order : Dict (Dict String)) (now : LoginTimes) (r : Request)
    → Permᴰ credentials order
    → handle_login jwt {F = F} decode tm order now r
      ≡ handle_login jwt {F = F} decode tm credentials now r
unfolding handle_login
handle_login-order jwt {F} decode tm order now r d = elim (Option-cases (decode r.body)) [
  | inl bad ↦ rw bad refl
  | inr (req, read) ↦ rw (read, Settled-same req d (settled req)) refl
]
