-- ===== src/Edge/Server/InFlight.antt =====
-- The gauge `http_requests_in_flight` while requests are served at the same time.
use axiler_fin.Base.{
  ℕ, ◌+◌, ◌≤◌, ◌≡◌, refl, Bool, true, false, String, Option, List, [], ◌∷◌, ◌++◌, map, All,
  All-mono, arith,
}
use axiler_fin.Base.Float.{Float64}
use axiler_fin.Metrics
use axiler_fin.Metrics.{Sample, inc, dec, observe, requests_in_flight}
use axiler_fin.Http.{Request}
use axiler_fin.Auth.Interface.{Jwt}
use axiler_fin.Router.{Chi}
use axiler_fin.Edge.Server.{Call, Server, serve}
use axiler_fin.Edge.Server.Emitted.{Emitted, serve-samples}
use axiler_fin.Edge.Server.Gauge.{
  enters, leaves, tally, unfinished, Runs, fits, Fits, Runs-total, Runs-Fits, inside_bounds,
  fits-total,
}

module _ {F : Type 0} where
  -- A sample that leaves the gauge of the address alone.
  abbrev pub Apart : String → Sample F → Type 0
  Apart uri s = (enters uri s ≡ false) × (leaves uri s ≡ false)

  fits-append :
      (uri : String) (samples rest : List (Sample F)) (inside : Bool)
      → All (Apart uri) samples
      → fits uri inside (samples ++ rest) ≡ fits uri inside rest
  unfolding fits
  fits-append uri [] rest inside h = refl
  fits-append uri (s ∷ samples) rest inside ((not_in, not_out), h) =
      rw (not_in, not_out) (fits-append uri samples rest inside h)

  fits-passed :
      (uri address tenant : String) (x : F) (samples : List (Sample F))
      → All (Apart uri) samples
      → fits uri false (
          inc requests_in_flight ("edge" ∷ address ∷ [])
          ∷ (samples
              ++ (observe Metrics.request_latency ("edge" ∷ address ∷ tenant ∷ []) x
                  ∷ dec requests_in_flight ("edge" ∷ address ∷ [])
                  ∷ [])))
        ≡ true
  unfolding fits
  fits-passed uri address tenant x samples h =
      let last : List (Sample F) =
        observe Metrics.request_latency ("edge" ∷ address ∷ tenant ∷ []) x
        ∷ dec requests_in_flight ("edge" ∷ address ∷ [])
        ∷ [] in
      ground (arith, fits-append uri samples last true h, fits-append uri samples last false h)

module _ (fl : Float64) (jwt : Jwt) (login_key : List ℕ → Option String) (parses : String → Bool)
    (chi : Chi) where
  open fl use {F}

  samples-Emitted :
      (uri : String) → Emitted F (All (Apart uri)) (λ samples. fits uri false samples ≡ true)
  unfolding fits
  samples-Emitted uri = record {
    quiet_next = tt;
    quiet = refl;
    suspicious = λ reason. refl;
    hit = λ tenant. refl;
    health = λ x. refl;
    passed = fits-passed uri;
  }

  -- A request with the state of the edge in which it is served.
  pub record Visit : Type 0 where
    pub call : Call F
    pub server : Server jwt F

  abbrev pub samples_of : Visit → List (Sample F)
  samples_of v = (serve fl jwt login_key parses chi v.call v.server).0.samples

  -- The reverse proxy leaves the gauge alone.
  abbrev pub ProxyApart : String → Visit → Type 0
  ProxyApart uri v = (host : String) (r : Request) → All (Apart uri) (v.call.proxied host r).samples

  visits_fit :
      (uri : String) (visits : List Visit)
      → All (ProxyApart uri) visits
      → All (λ samples. fits uri false samples ≡ true) (map samples_of visits)
  visits_fit uri [] h = tt
  visits_fit uri (v ∷ visits) (p, h) = (
    serve-samples fl jwt _ _ (samples-Emitted uri) login_key parses chi v.call v.server p,
    visits_fit uri visits h,
  )

  -- The gauge of requests in flight to an address, while any requests to the edge are served at the same
  -- time, each in any state of the edge, also one with other expressions than `NewAbuseDetector`
  -- compiles, with which no request is passed on, and where the reverse proxy leaves the gauge alone: at
  -- every moment, whatever the order in which their calls on the metrics happen, it has been raised at
  -- least as often as lowered, and by no more than the number of requests that have calls still to make.
  -- So it is where it was when all are done.
  pub in_flight :
      (uri : String) (visits : List Visit) {made : List (Sample F)} {rest : List (List (Sample F))}
      → All (ProxyApart uri) visits
      → Runs (map samples_of visits) made rest
      → (tally (leaves uri) made ≤ tally (enters uri) made)
        × (tally (enters uri) made ≤ tally (leaves uri) made + unfinished rest)
  in_flight uri visits {made} {rest} h r =
      let whole = visits_fit uri visits h in
      let fitting : All (Fits uri) (map samples_of visits) =
        All-mono (λ samples f. (false, f)) (map samples_of visits) whole in
      let even = fits-total uri (map samples_of visits) whole in
      let (low, high) = inside_bounds uri rest (Runs-Fits uri r fitting) in
      let entered = Runs-total (enters uri) r in
      let left = Runs-total (leaves uri) r in (omega arith, omega arith)
