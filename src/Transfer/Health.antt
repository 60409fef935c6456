-- ===== src/Transfer/Health.antt =====
-- cmd/transfer-service/main.go: the health endpoint and the switch of its simulated failure.
use axiler_fin.Base.{
  Bool, true, false, not, List, [], ◌∷◌, ◌≡◌, refl, Bool-cases, inl, inr, ◌∙◌, ◌=ˢ◌, if◌then◌else◌,
}
use axiler_fin.Base.Float.{Float64, zero_f, one_f}
use axiler_fin.Models.{Time}
use axiler_fin.Metrics.{inc, set, service_health, health_check_failures}
use axiler_fin.Http.{Request, no_payload, health, failure_mode}
use axiler_fin.Service.{Outcome, reply}

-- Whether the number of requests with the method POST is odd.
abbrev pub odd_posts : List Request → Bool
odd_posts [] = false
odd_posts (r ∷ rest) = if r.method =ˢ "POST" then not (odd_posts rest) else odd_posts rest

module _ (fl : Float64) where
  open fl use {F}

  -- `handleHealth`, for the value of `failureMode`
  unfoldable pub handle_health : Bool → Time → Outcome F
  handle_health failing now =
      if failing
      then reply 503
          (health (record {
            status = "unhealthy";
            timestamp = now;
            service = "transfer";
            version = "1.0.0";
            dependencies = [];
          }))
          (set service_health ("transfer" ∷ []) (zero_f fl)
            ∷ inc health_check_failures ("transfer" ∷ "simulated_failure" ∷ [])
            ∷ [])
      else record {
        response = record {
          status = 200;
          header = ("Content-Type", "application/json") ∷ [];
          payload = health (record {
            status = "healthy";
            timestamp = now;
            service = "transfer";
            version = "1.0.0";
            dependencies = ("database", "ok") ∷ [];
          });
        };
        samples = set service_health ("transfer" ∷ []) (one_f fl) ∷ [];
      }

  -- `handleSimulateFailure`, with the value of `failureMode` before and after it
  unfoldable pub handle_simulate_failure : Request → Bool → Outcome F × Bool
  handle_simulate_failure r failing =
      if r.method =ˢ "POST"
      then (
        record {
          response = record {
            status = 200;
            header = ("Content-Type", "application/json") ∷ [];
            payload = failure_mode (not failing) (if not failing then "enabled" else "disabled");
          };
          samples = [];
        },
        not failing,
      )
      else (reply 405 no_payload [], failing)

  -- The mode after a series of requests to the switch.
  pub switched : List Request → Bool → Bool
  switched [] failing = failing
  switched (r ∷ rest) failing = switched rest (handle_simulate_failure r failing).1

  if-not :
      (b failing : Bool)
      → (if b then not (not failing) else not failing) ≡ (if not b then not failing else failing)
  if-not true true = refl
  if-not true false = refl
  if-not false failing = refl

  switched-odd :
      (calls : List Request) (failing : Bool)
      → switched calls failing ≡ (if odd_posts calls then not failing else failing)
  unfolding switched handle_simulate_failure
  switched-odd [] failing = refl
  switched-odd (r ∷ rest) failing = elim (Bool-cases (r.method =ˢ "POST")) [
    | inl post ↦ rw post (switched-odd rest (not failing) ∙ if-not (odd_posts rest) failing)
    | inr other ↦ rw other (switched-odd rest failing)
  ]

  -- The service that starts healthy reports 503 after a series of requests to the switch if the number
  -- of POST requests in it is odd, and 200 otherwise.
  pub health_parity :
      (calls : List Request) (now : Time)
      → (handle_health (switched calls false) now).response.status
        ≡ (if odd_posts calls then 503 else 200)
  unfolding handle_health
  health_parity calls now = elim (Bool-cases (odd_posts calls)) [
    | inl odd ↦ rw (odd, switched-odd calls false, odd) refl
    | inr even ↦ rw (even, switched-odd calls false, even) refl
  ]
