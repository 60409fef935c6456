-- ===== src/Edge/Middleware/Order.antt =====
-- The routing does not depend on the order in which the range visits `backends`.
use mathlib.Core.List.{Permᴰ, Memᴰ}
use axiler_fin.Base.{
  ℕ, String, Bool, true, false, List, [], ◌∷◌, Dict, ◌≡◌, refl, sym, ◌∙◌, Bool-cases, arith, ◌⊎◌,
  inl, inr, All, codes, has_prefix,
}
use axiler_fin.Base.Orders.{All-perm, Memᴰ-perm}
use axiler_fin.Http.{Request}
use axiler_fin.Service.{Outcome}
use axiler_fin.Edge.Middleware.{backends, backend_url, proxy_request}
use axiler_fin.Edge.Middleware.Routing.{OnlyRoute, backend_url-OnlyRoute}

-- Of two prefixes of a text one is a prefix of the other.
nested :
    (s p q : List ℕ)
    → has_prefix s p ≡ true
    → has_prefix s q ≡ true
    → (has_prefix p q ≡ true) ⊎ (has_prefix q p ≡ true)
unfolding has_prefix
nested s [] q h k = inr refl
nested s (c ∷ p) [] h k = inl refl
nested [] (c ∷ p) (d ∷ q) h k = absurd (ground arith)
nested (e ∷ s) (c ∷ p) (d ∷ q) h k = elim (nested s p q (ground arith) (ground arith)) [
  | inl i ↦ inl (ground arith)
  | inr i ↦ inr (ground arith)
]

-- No two paths of `backends` begin one URI.
apart :
    (uri p q : List ℕ)
    → has_prefix p q ≡ false
    → has_prefix q p ≡ false
    → has_prefix uri p ≡ true
    → has_prefix uri q ≡ true
    → ⊥
apart uri p q no_pq no_qp h k = elim (nested uri p q h k) [
  | inl i ↦ absurd (cc (i, no_pq))
  | inr i ↦ absurd (cc (i, no_qp))
]

abbrev Nowhere : String → Dict String → Type 0
Nowhere uri = All (λ route. has_prefix (codes uri) (codes route.0) ≡ false)

backend_url-Nowhere :
    (order : Dict String) (uri : String) → Nowhere uri order → backend_url order uri ≡ ""
unfolding backend_url
backend_url-Nowhere [] uri h = refl
backend_url-Nowhere ((p, u) ∷ rest) uri (other, h) = rw other (backend_url-Nowhere rest uri h)

auth_search :
    (uri : String)
    → has_prefix (codes uri) (codes "/auth") ≡ true
    → has_prefix (codes uri) (codes "/api/v1/search") ≡ true
    → ⊥
unfolding has_prefix
auth_search uri h k = apart (codes uri) (codes "/auth") (codes "/api/v1/search") refl refl h k

auth_transfer :
    (uri : String)
    → has_prefix (codes uri) (codes "/auth") ≡ true
    → has_prefix (codes uri) (codes "/api/v1/transfer") ≡ true
    → ⊥
unfolding has_prefix
auth_transfer uri h k = apart (codes uri) (codes "/auth") (codes "/api/v1/transfer") refl refl h k

search_transfer :
    (uri : String)
    → has_prefix (codes uri) (codes "/api/v1/search") ≡ true
    → has_prefix (codes uri) (codes "/api/v1/transfer") ≡ true
    → ⊥
unfolding has_prefix
search_transfer uri h k =
    apart (codes uri) (codes "/api/v1/search") (codes "/api/v1/transfer") refl refl h k

-- One route fits, or none.
abbrev Settled : String → Dict String → Type 0
Settled uri order =
    Nowhere uri order
    ⊎ ((route : String × String) × Memᴰ route order
        × (has_prefix (codes uri) (codes route.0) ≡ true)
        × OnlyRoute route.1 uri order)

settled : (uri : String) → Settled uri backends
settled uri = elim (Bool-cases (has_prefix (codes uri) (codes "/auth"))) [
  | inl auth ↦ inr (
    _,
    Memᴰ.head refl,
    auth,
    (
      λ h. refl,
      (λ h. absurd (auth_search uri auth h), (λ h. absurd (auth_transfer uri auth h), tt)),
    ),
  )
  | inr not_auth ↦ elim (Bool-cases (has_prefix (codes uri) (codes "/api/v1/search"))) [
    | inl search ↦ inr (
      _,
      Memᴰ.tail (Memᴰ.head refl),
      search,
      (
        λ h. absurd (cc (h, not_auth)),
        (λ h. refl, (λ h. absurd (search_transfer uri search h), tt)),
      ),
    )
    | inr not_search ↦ elim (Bool-cases (has_prefix (codes uri) (codes "/api/v1/transfer"))) [
      | inl transfer ↦ inr (
        _,
        Memᴰ.tail (Memᴰ.tail (Memᴰ.head refl)),
        transfer,
        (λ h. absurd (cc (h, not_auth)), (λ h. absurd (cc (h, not_search)), (λ h. refl, tt))),
      )
      | inr not_transfer ↦ inl (not_auth, (not_search, (not_transfer, tt)))
    ]
  ]
]

Settled-same :
    (uri : String) {order order' : Dict String}
    → Permᴰ order order'
    → Settled uri order
    → backend_url order' uri ≡ backend_url order uri
Settled-same uri d (inl nowhere) =
    backend_url-Nowhere _ uri (All-perm _ d nowhere) ∙ sym (backend_url-Nowhere _ uri nowhere)
Settled-same uri d (inr ((path, url), mem, fits, only)) =
    backend_url-OnlyRoute _ uri path url (Memᴰ-perm d mem) fits (All-perm _ d only)
    ∙ sym (backend_url-OnlyRoute _ uri path url mem fits only)

-- Whatever the order in which the range visits `backends`, `proxyRequest` does the same, for every
-- request.
pub proxy_request-order :
    {F : Type 0} (parses : String → Bool) (proxy : String → Request → Outcome F)
    (order : Dict String) (r : Request)
    → Permᴰ backends order
    → proxy_request parses proxy order r ≡ proxy_request parses proxy backends r
unfolding proxy_request
proxy_request-order parses proxy order r d =
    rw (Settled-same r.request_uri d (settled r.request_uri)) refl
