-- ===== src/Edge/Server/Gauge.antt =====
-- Requests whose calls on the metrics interleave, and how often those raise and lower the gauge
-- `http_requests_in_flight`.
use axiler_fin.Base.{
  ℕ, zero, suc, ◌+◌, ◌≤◌, ◌≡◌, refl, Bool, true, false, not, ◌&&◌, String, some, List, [], ◌∷◌, All,
  All-get, All-set, get_elem?, set, ◌=ˢ◌, arith, if◌then◌else◌, Bool-cases, inl, inr,
}
use axiler_fin.Metrics.{Sample, inc, dec, requests_in_flight}

-- The labels of the requests to an address.
abbrev pub is_edge : String → List String → Bool
is_edge uri (service ∷ endpoint ∷ []) = service =ˢ "edge" && endpoint =ˢ uri
is_edge uri labels = false

module _ {F : Type 0} where
  -- The sample counts a request to this address in, or out.
  abbrev pub enters : String → Sample F → Bool
  enters uri (inc requests_in_flight labels) = is_edge uri labels
  enters uri s = false

  abbrev pub leaves : String → Sample F → Bool
  leaves uri (dec requests_in_flight labels) = is_edge uri labels
  leaves uri s = false

  unfoldable pub tally : (Sample F → Bool) → List (Sample F) → ℕ
  tally p [] = 0
  tally p (s ∷ samples) = if p s then suc (tally p samples) else tally p samples

  pub total : (Sample F → Bool) → List (List (Sample F)) → ℕ
  total p [] = 0
  total p (t ∷ ts) = tally p t + total p ts

  -- How many are not at their end.
  unfoldable pub unfinished : List (List (Sample F)) → ℕ
  unfinished [] = 0
  unfinished ([] ∷ ts) = unfinished ts
  unfinished ((s ∷ samples) ∷ ts) = suc (unfinished ts)

  -- Some requests, each with the samples that it has still to make; any of them makes its next one.
  -- The list in the middle is all that they make, in the order in which it happens.
  pub data Runs : List (List (Sample F)) → List (Sample F) → List (List (Sample F)) → Type 0 where
    stop : {ts : List (List (Sample F))} → Runs ts [] ts
    emit :
        (i : ℕ) {s : Sample F} {rest made : List (Sample F)} {ts ts' : List (List (Sample F))}
        → get_elem? ts i ≡ some (s ∷ rest)
        → Runs (set ts i rest) made ts'
        → Runs ts (s ∷ made) ts'

  total-set :
      (p : Sample F → Bool) (ts : List (List (Sample F))) (i : ℕ) {s : Sample F}
      {rest : List (Sample F)}
      → get_elem? ts i ≡ some (s ∷ rest)
      → total p ts ≡ total p (set ts i rest) + (if p s then 1 else 0)
  unfolding total tally
  total-set p [] i e = absurd (ground arith)
  total-set p (t ∷ ts) zero {s} {rest} e = let same : t ≡ s ∷ rest = cc e in rw same (ground arith)
  total-set p (t ∷ ts) (suc i) e = omega (arith, total-set p ts i e)

  pub Runs-total :
      (p : Sample F → Bool) {made : List (Sample F)} {ts ts' : List (List (Sample F))}
      → Runs ts made ts'
      → total p ts ≡ tally p made + total p ts'
  unfolding tally
  Runs-total p stop = omega arith
  Runs-total p (emit i {s} {rest} {made} {ts} e r) =
      ground (arith, total-set p ts i e, Runs-total p r)

  -- What is left of a request's samples counts it out again if it is counted in, and in at most once.
  unfoldable pub fits : String → Bool → List (Sample F) → Bool
  fits uri inside [] = not inside
  fits uri inside (s ∷ samples) =
      if enters uri s
      then not inside && fits uri true samples
      else (if leaves uri s then inside && fits uri false samples else fits uri inside samples)

  abbrev pub Fits : String → List (Sample F) → Type 0
  Fits uri samples = (inside : Bool) × (fits uri inside samples ≡ true)

  fits-tally :
      (uri : String) (inside : Bool) (samples : List (Sample F))
      → fits uri inside samples ≡ true
      → tally (leaves uri) samples ≡ tally (enters uri) samples + (if inside then 1 else 0)
  unfolding fits tally
  fits-tally uri inside [] h = ground arith
  fits-tally uri inside (s ∷ samples) h =
      ground (arith, fits-tally uri true samples, fits-tally uri false samples)

  Fits-tail :
      (uri : String) (s : Sample F) (rest : List (Sample F)) → Fits uri (s ∷ rest) → Fits uri rest
  unfolding fits
  Fits-tail uri s rest (inside, h) = elim (Bool-cases (enters uri s)) [
    | inl entering ↦ (true, ground arith)
    | inr not_entering ↦ elim (Bool-cases (leaves uri s)) [
      | inl leaving ↦ (false, ground arith)
      | inr neither ↦ (inside, ground arith)
    ]
  ]

  -- While requests run, each remains one that fits.
  pub Runs-Fits :
      (uri : String) {made : List (Sample F)} {ts ts' : List (List (Sample F))}
      → Runs ts made ts'
      → All (Fits uri) ts
      → All (Fits uri) ts'
  Runs-Fits uri stop h = h
  Runs-Fits uri (emit i {s} {rest} {made} {ts} e r) h =
      Runs-Fits uri r
        (All-set (Fits uri) ts i rest (Fits-tail uri s rest (All-get (Fits uri) ts i e h)) h)

  pub inside_bounds :
      (uri : String) (ts : List (List (Sample F)))
      → All (Fits uri) ts
      → (total (enters uri) ts ≤ total (leaves uri) ts)
        × (total (leaves uri) ts ≤ total (enters uri) ts + unfinished ts)
  unfolding total tally unfinished
  inside_bounds uri [] h = (omega arith, omega arith)
  inside_bounds uri ([] ∷ ts) (f, h) =
      let (low, high) = inside_bounds uri ts h in (omega arith, omega arith)
  inside_bounds uri ((s ∷ samples) ∷ ts) ((inside, f), h) =
      let (low, high) = inside_bounds uri ts h in
      let here = fits-tally uri inside (s ∷ samples) f in (ground arith, ground arith)

  pub fits-total :
      (uri : String) (ts : List (List (Sample F)))
      → All (λ samples. fits uri false samples ≡ true) ts
      → total (leaves uri) ts ≡ total (enters uri) ts
  unfolding total
  fits-total uri [] h = refl
  fits-total uri (t ∷ ts) (f, h) = omega (arith, fits-tally uri false t f, fits-total uri ts h)
