-- ===== src/Edge/Middleware/Routing.antt =====
-- The routing to the backends does not depend on the order in which the map is visited.
use mathlib.Core.List.{Memᴰ}
use axiler_fin.Base.{
  String, Bool, true, false, [], ◌∷◌, Dict, ◌≡◌, ◌≢◌, refl, sym, ap, ◌∙◌, Bool-cases, inl, inr, All,
  codes, has_prefix, ◌=ˢ◌, ne→=ˢ,
}
use axiler_fin.Http.{Request}
use axiler_fin.Service.{Outcome}
use axiler_fin.Edge.Middleware.{backend_url, proxy_request, trim_scheme, directed}

-- Every path of the map that begins the URI leads to the URL.
abbrev pub OnlyRoute : String → String → Dict String → Type 0
OnlyRoute url uri = All (λ route. has_prefix (codes uri) (codes route.0) ≡ true → route.1 ≡ url)

pub backend_url-OnlyRoute :
    (order : Dict String) (uri path url : String)
    → Memᴰ (path, url) order
    → has_prefix (codes uri) (codes path) ≡ true
    → OnlyRoute url uri order
    → backend_url order uri ≡ url
unfolding backend_url
backend_url-OnlyRoute [] uri path url k m h = elim k [ ]
backend_url-OnlyRoute ((p, u) ∷ rest) uri path url (Memᴰ.head e) m (own, h) =
    let fits : has_prefix (codes uri) (codes p) ≡ true =
      ap (λ route. has_prefix (codes uri) (codes route.0)) (sym e) ∙ m in
    rw fits (own fits)
backend_url-OnlyRoute ((p, u) ∷ rest) uri path url (Memᴰ.tail k) m (own, h) =
    elim (Bool-cases (has_prefix (codes uri) (codes p))) [
      | inl fits ↦ rw fits (own fits)
      | inr other ↦ rw other (backend_url-OnlyRoute rest uri path url k m h)
    ]

-- In whichever order the routes are visited: if a path of the map begins the request's URI, and every
-- path that does leads to the same URL, which parses, then the request is sent to the host of that URL,
-- with the director's changes.
pub proxy_request_routes :
    {F : Type 0} (parses : String → Bool) (proxy : String → Request → Outcome F)
    (order : Dict String) (r : Request) (path url : String)
    → Memᴰ (path, url) order
    → has_prefix (codes r.request_uri) (codes path) ≡ true
    → OnlyRoute url r.request_uri order
    → url ≢ ""
    → parses url ≡ true
    → proxy_request parses proxy order r ≡ proxy (trim_scheme url) (directed r)
unfolding proxy_request
proxy_request_routes parses proxy order r path url k m h named parsed =
    let found = backend_url-OnlyRoute order r.request_uri path url k m h in
    let nonempty : (url =ˢ "") ≡ false = ne→=ˢ url "" named in rw (found, nonempty, parsed) refl
