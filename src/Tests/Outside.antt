-- ===== src/Tests/Outside.antt =====
-- Concrete routers, generators and secret stores.
use mathlib.Core.List.{Memᴰ}
use axiler_fin.Base.{
  String, Bool, true, false, Option, none, some, List, [], ◌∷◌, Dict, ◌≡◌, refl, sym, ap, ◌∙◌,
  arith, ◌&&◌, ◌=ˢ◌, eq_iff, if◌then◌else◌, Bool-cases, inl, inr, All, ok, err,
}
use axiler_fin.Http.{Request, no_payload}
use axiler_fin.Auth.{Keys}
use axiler_fin.Router.{Chi, ChiLaws, Route, takes, is_static, Replies}
use axiler_fin.Models.Synthetic.{Rng, RngLaws}
use axiler_fin.Vault.Interface.{Api, ApiLaws, Value, text, Secret}
use axiler_fin.Tests.Fixtures.{Amount}

abbrev fits : Route → Request → Bool
fits route r = takes route.method r.method && route.pattern =ˢ r.path

abbrev first_fit : {H : Type 0} → List (Route × H) → Request → Option (H × Dict String)
first_fit [] r = none
first_fit ((route, h) ∷ rest) r = if fits route r then some (h, []) else first_fit rest r

-- A router that knows no parameters.
abbrev pub plain_chi : Chi
plain_chi = record { route_path = λ r. r.path; find = first_fit }

fits-parts :
    (route : Route) (r : Request)
    → fits route r ≡ true
    → (takes route.method r.method ≡ true) × (r.path ≡ route.pattern)
fits-parts route r h = elim (Bool-cases (takes route.method r.method)) [
  | inl taken ↦ (taken, sym ((eq_iff route.pattern r.path).0 (ground arith)))
  | inr other ↦ absurd (ground arith)
]

first_fit-fits :
    {H : Type 0} (routes : List (Route × H)) (r : Request) (h : H) (params : Dict String)
    → first_fit routes r ≡ some (h, params)
    → (route : Route) × Memᴰ (route, h) routes
      × (takes route.method r.method ≡ true)
      × (is_static route.pattern ≡ true → r.path ≡ route.pattern)
first_fit-fits [] r h params e = absurd (ground arith)
first_fit-fits {H} ((route, g) ∷ rest) r h params e = elim (Bool-cases (fits route r)) [
  | inl here ↦
      let (taken, path) = fits-parts route r here in
      let same : some (g, []) ≡ some (h, params) = rw here at e in
      let own : g ≡ h = ap (λ o. elim o [ none ↦ g | some p ↦ p.0 ]) same in
      (route, Memᴰ.head (ap (λ x. (route, x)) (sym own)), taken, λ static. path)
  | inr other ↦
      let (found, mem, taken, path) = first_fit-fits rest r h params (rw other at e) in
      (found, Memᴰ.tail mem, taken, path)
]

first_fit-static :
    {H : Type 0} (routes : List (Route × H)) (r : Request) (route : Route) (h : H)
    → Memᴰ (route, h) routes
    → All (λ e. e.0.pattern ≡ route.pattern → e.1 ≡ h) routes
    → takes route.method r.method ≡ true
    → r.path ≡ route.pattern
    → (params : Dict String) × (first_fit routes r ≡ some (h, params))
first_fit-static [] r route h mem only taken path = elim mem [ ]
first_fit-static ((first, g) ∷ rest) r route h mem (own, only) taken path =
    elim (Bool-cases (fits first r)) [
      | inl here ↦
          let (t, p) = fits-parts first r here in
          ([], rw here (ap (λ x. some (x, [])) (own (sym p ∙ path))))
      | inr other ↦ elim mem [
        | Memᴰ.head e ↦
            let here : fits route r ≡ true =
              ground (arith, taken, eq_iff route.pattern r.path, path) in
            absurd (cc (here, other, ap (λ p. fits p.0 r) e))
        | Memᴰ.tail later ↦
            let (params, found) = first_fit-static rest r route h later only taken path in
            (params, rw other found)
      ]
    ]

pub plain_chi-laws : ChiLaws plain_chi
plain_chi-laws = record {
  find-fits = λ routes r h params e. first_fit-fits routes r h params e;
  find-static = λ routes r route h mem only taken static path.
      first_fit-static routes r route h mem only taken path;
}

-- A generator that always draws 0.
abbrev pub zeros : Rng
zeros = record { Source = Unit; intn = λ n s. (0, s) }

pub zeros-laws : RngLaws zeros
zeros-laws = record { intn-lt = λ n s h. h }

abbrev pub keys : Keys
keys = record { private_pem = "private"; public_pem = "public" }

abbrev pub replies : Replies Amount
replies = record {
  page = record { status = 200; header = []; payload = no_payload };
  unrouted = record { status = 404; header = []; payload = no_payload };
}

-- A store with one role and one pair of credentials, whose clients are an address and a token.
abbrev granted : Secret
granted = record {
  contents = none;
  auth = some (record { client_token = "s.1"; lease_duration = 60 });
  lease_duration = 0;
}

abbrev pub leased : Dict Value
leased = ("username", text "app") ∷ ("password", text "pw") ∷ []

abbrev pub one_role : Api
one_role = record {
  Client = String × String;
  new_client = λ addr. ok (addr, "");
  address = λ c. c.0;
  token = λ c. c.1;
  set_token = λ t c. (c.0, t);
  write = λ path payload c. (ok (some granted), c);
  read = λ path c. (
    if path =ˢ "database/creds/app"
        then ok (some (record { contents = some leased; auth = none; lease_duration = 60 }))
        else ok none,
    c,
  );
  renew_self = λ n c. (err "permission denied", c);
  sys_health = λ c. (ok false, c);
}

pub one_role-laws : ApiLaws one_role
one_role-laws = record {
  token-set_token = λ t c. refl;
  address-set_token = λ t c. refl;
  token-write = λ path payload c. refl;
  address-write = λ path payload c. refl;
  token-read = λ path c. refl;
  address-read = λ path c. refl;
  token-renew_self = λ n c. refl;
  address-renew_self = λ n c. refl;
  token-sys_health = λ c. refl;
  address-sys_health = λ c. refl;
}
