-- ===== src/Router.antt =====
-- What the `main` functions of the services use of github.com/go-chi/chi/v5 and of promhttp, and the
-- documented behaviour that is relied on.
use mathlib.Core.List.{Memᴰ}
use axiler_fin.Base.{
  String, Bool, true, Option, none, some, List, Dict, ◌≡◌, ◌=ˢ◌, ◌&&◌, not, has_code, All,
}
use axiler_fin.Http.{Request, Response}
use axiler_fin.Service.{Outcome}

-- `Get`, `Post`, or `Handle`, which takes every method: none.
pub record Route : Type 0 where
  pub method : Option String
  pub pattern : String

abbrev pub get : String → Route
get pattern = record { method = some "GET"; pattern = pattern }

abbrev pub post : String → Route
post pattern = record { method = some "POST"; pattern = pattern }

abbrev pub handle : String → Route
handle pattern = record { method = none; pattern = pattern }

abbrev pub takes : Option String → String → Bool
takes none method = true
takes (some name) method = name =ˢ method

-- A pattern without parameters and wildcards.
unfoldable pub is_static : String → Bool
unfolding has_code
is_static pattern = not (has_code b'{' pattern) && not (has_code b'*' pattern)

pub record Chi : Type 1 where
  -- The path by which a request is routed: its raw path if it has one, or else its path.
  pub route_path : Request → String
  -- What is registered under the route to which the request goes, with the parameters of its path.
  pub find : {H : Type 0} → List (Route × H) → Request → Option (H × Dict String)

pub record ChiLaws (chi : Chi) : Type 1 where
  -- A request goes to a route that takes its method, and to one with a static pattern only if this is
  -- its path.
  pub find-fits :
      {H : Type 0} (routes : List (Route × H)) (r : Request) (h : H) (params : Dict String)
      → chi.find routes r ≡ some (h, params)
      → (route : Route) × Memᴰ (route, h) routes
        × (takes route.method r.method ≡ true)
        × (is_static route.pattern ≡ true → chi.route_path r ≡ route.pattern)
  -- If a static pattern is its path, it goes there, where the pattern is registered once.
  pub find-static :
      {H : Type 0} (routes : List (Route × H)) (r : Request) (route : Route) (h : H)
      → Memᴰ (route, h) routes
      → All (λ e. e.0.pattern ≡ route.pattern → e.1 ≡ h) routes
      → takes route.method r.method ≡ true
      → is_static route.pattern ≡ true
      → chi.route_path r ≡ route.pattern
      → (params : Dict String) × (chi.find routes r ≡ some (h, params))

-- What the libraries answer to a request by themselves: promhttp with the page of the metrics, and chi
-- where no route fits.
pub record Replies (F : Type 0) : Type 0 where
  pub page : Response F
  pub unrouted : Response F

abbrev pub from_library : {F : Type 0} → Response F → Outcome F
from_library response = record { response = response; samples = List.[] }
