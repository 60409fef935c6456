-- ===== src/Edge/Server/Sealed.antt =====
-- What stands behind the edge is never reached through it.
use axiler_fin.Base.{
  ℕ, String, Bool, ◌≡◌, refl, ap, sym, ◌∙◌, subst, inl, inr, Option, Option-cases, Result-cases,
  Result, ok, err, List, [], ◌∷◌, Dict, map,
}
use axiler_fin.Base.Float.{Float64}
use axiler_fin.Http.{Request}
use axiler_fin.Service.{Outcome}
use axiler_fin.Auth
use axiler_fin.Auth.{Keys}
use axiler_fin.Auth.Interface.{Jwt}
use axiler_fin.Router.{Chi}
use axiler_fin.Edge.Abuse.{AbuseDetector, new_abuse_detector}
use axiler_fin.Edge.Middleware.{proxy_request}
use axiler_fin.Edge.Abuse.Detect.Alarm.{HasPattern}
use axiler_fin.Edge.Middleware.Blocked.{middleware-Blocked}
use axiler_fin.Edge.Server.{
  Endpoint, metrics, health, protected, ratelimit_status, routes, Call, Server, start, answer,
  serve,
}

-- The same call, with these backends behind the proxy.
abbrev pub behind : {F : Type 0} → (String → Request → Outcome F) → Call F → Call F
behind proxied c = record c { proxied = proxied }

module _ (fl : Float64) (jwt : Jwt) (login_key : List ℕ → Option String) (parses : String → Bool)
    (chi : Chi) where
  open fl use {F}

  -- The outcomes of a series of requests, and the edge after them.
  pub serve_series : List (Call F) → Server jwt F → List (Outcome F) × Server jwt F
  serve_series [] s = ([], s)
  serve_series (c ∷ calls) s =
      let (out, s') = serve fl jwt login_key parses chi c s in
      let (outs, last) = serve_series calls s' in (out ∷ outs, last)

  module _ (p p' : String → Request → Outcome F) where
    -- The backends make no difference, and the expression stays.
    record Sealed (c : Call F) (s : Server jwt F) : Type 0 where
      same :
          serve fl jwt login_key parses chi (behind p c) s
          ≡ serve fl jwt login_key parses chi (behind p' c) s
      pattern : HasPattern (serve fl jwt login_key parses chi (behind p' c) s).1.edge.detector

    answer-same :
        (e : Endpoint) (params : Dict String) (c : Call F) (s : Server jwt F)
        → HasPattern s.edge.detector
        → (answer fl jwt login_key parses e params (behind p c) s
            ≡ answer fl jwt login_key parses e params (behind p' c) s)
          × HasPattern (answer fl jwt login_key parses e params (behind p' c) s).1.edge.detector
    answer-same metrics params c s h = (refl, h)
    answer-same health params c s h = (refl, h)
    answer-same protected params c s h =
        let there =
          middleware-Blocked fl jwt login_key s.token_manager c.now c.request
            (proxy_request parses p c.order) (proxy_request parses p' c.order) s.edge h in
        let back =
          middleware-Blocked fl jwt login_key s.token_manager c.now c.request
            (proxy_request parses p' c.order) (proxy_request parses p c.order) s.edge h in
        (ap (λ o. (o.0, record s { edge = o.1 })) there.same, back.pattern)
    answer-same ratelimit_status params c s h = (refl, h)

    serve-Sealed : (c : Call F) (s : Server jwt F) → HasPattern s.edge.detector → Sealed c s
    unfolding serve
    serve-Sealed c s h = elim (Option-cases (chi.find routes c.request)) [
      | inl nowhere ↦ record { same = rw nowhere refl; pattern = rw nowhere h }
      | inr ((e, params), found) ↦
          let (same, pattern) = answer-same e params c s h in
          record { same = rw found same; pattern = rw found pattern }
    ]

    series-same :
        (calls : List (Call F)) (s : Server jwt F)
        → HasPattern s.edge.detector
        → serve_series (map (behind p) calls) s ≡ serve_series (map (behind p') calls) s
    unfolding serve_series
    series-same [] s h = refl
    series-same (c ∷ calls) s h =
        let v = serve-Sealed c s h in
        ap
          (λ o. (
            o.0 ∷ (serve_series (map (behind p) calls) o.1).0,
            (serve_series (map (behind p) calls) o.1).1,
          ))
          v.same
        ∙ ap (λ rest. ((serve fl jwt login_key parses chi (behind p' c) s).0 ∷ rest.0, rest.1))
            (series-same calls (serve fl jwt login_key parses chi (behind p' c) s).1 v.pattern)

  abbrev detector_of : Result (Server jwt F) → AbuseDetector
  detector_of (ok s) = s.edge.detector
  detector_of (err message) = new_abuse_detector

  started-detector : (keys : Keys) → detector_of (start fl jwt keys) ≡ new_abuse_detector
  unfolding start
  started-detector keys = elim (Result-cases (Auth.new jwt keys.private_pem keys.public_pem)) [
    | inl (message, failed) ↦ rw (failed, start) refl
    | inr (tm, made) ↦ rw (made, start) refl
  ]

  new-HasPattern : HasPattern new_abuse_detector
  unfolding new_abuse_detector
  new-HasPattern = refl

  -- From the start of the edge on, for every series of requests to any of its endpoints, with valid
  -- tokens or not: the outcomes and the state of the edge are the same whatever the backends would
  -- answer, so that none of them is ever reached.
  pub edge_sealed :
      (keys : Keys) (s : Server jwt F) (calls : List (Call F)) (p p' : String → Request → Outcome F)
      → start fl jwt keys ≡ ok s
      → serve_series (map (behind p) calls) s ≡ serve_series (map (behind p') calls) s
  edge_sealed keys s calls p p' started =
      let fresh : s.edge.detector ≡ new_abuse_detector =
        sym (ap detector_of started) ∙ started-detector keys in
      series-same p p' calls s (subst HasPattern (sym fresh) new-HasPattern)
