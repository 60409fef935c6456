-- ===== src/Edge/Abuse/History/Cleanup.antt =====
-- What `CleanupOldData` drops.
use axiler_fin.Base.{
  ℕ, ◌≤◌, ◌*◌, String, List, [], ◌∷◌, true, false, ◌≡◌, ◌≢◌, refl, sym, ap, subst, ◌∙◌, arith,
  Bool-cases, inl, inr, ◌=ˢ◌, eq_iff, Dict, lookup_or, All, length, ◌==◌,
}
use axiler_fin.Base.Distinct.{Distinct, lookup_or-missing, lookup_or-head, lookup_or-tail}
use axiler_fin.Models.{Time}
use axiler_fin.Edge.Abuse.{RequestHistory, AbuseDetector}
use axiler_fin.Edge.Abuse.History.{
  minute, recent, empty_history, cleaned, is_idle, cleanup_from, cleanup_old_data,
}
use axiler_fin.Edge.Abuse.History.Window.{history_of, recent-recent}

empty_of_length : (ts : List Time) → (length ts == 0) ≡ true → ts ≡ []
empty_of_length [] h = refl
empty_of_length (t ∷ ts) h = absurd (ground arith)

cleanup_from-missing :
    (now : Time) (key : String) (m : Dict RequestHistory)
    → All (λ e. e.0 ≢ key) m
    → All (λ e. e.0 ≢ key) (cleanup_from now m)
unfolding cleanup_from
cleanup_from-missing now key [] h = tt
cleanup_from-missing now key ((k, held) ∷ m) (ne, h) =
    elim (Bool-cases (is_idle (cleaned now held))) [
      | inl idle ↦ rw idle (cleanup_from-missing now key m h)
      | inr busy ↦ rw busy (ne, cleanup_from-missing now key m h)
    ]

cleanup_from-Distinct :
    (now : Time) (m : Dict RequestHistory) → Distinct m → Distinct (cleanup_from now m)
unfolding cleanup_from
cleanup_from-Distinct now [] d = tt
cleanup_from-Distinct now ((k, held) ∷ m) (ne, d) = elim (Bool-cases (is_idle (cleaned now held))) [
  | inl idle ↦ rw idle (cleanup_from-Distinct now m d)
  | inr busy ↦ rw busy (cleanup_from-missing now k m ne, cleanup_from-Distinct now m d)
]

cleanup_from-busy :
    (now : Time) (m : Dict RequestHistory) → All (λ e. is_idle e.1 ≡ false) (cleanup_from now m)
unfolding cleanup_from
cleanup_from-busy now [] = tt
cleanup_from-busy now ((k, held) ∷ m) = elim (Bool-cases (is_idle (cleaned now held))) [
  | inl idle ↦ rw idle (cleanup_from-busy now m)
  | inr busy ↦ rw busy (busy, cleanup_from-busy now m)
]

module _ (d : ℕ) (now at : Time) (short : d ≤ 5 * minute) (later : now ≤ at) where
  -- Two histories show the same to every check that looks back from `at` as far as `d`.
  abbrev Alike : RequestHistory → RequestHistory → Type 0
  Alike h' h =
      (recent d at h'.requests ≡ recent d at h.requests)
      × (recent d at h'.failed_attempts ≡ recent d at h.failed_attempts)

  cleaned-Alike : (h : RequestHistory) → Alike (cleaned now h) h
  cleaned-Alike h = (
    recent-recent d (5 * minute) at now h.requests short later,
    recent-recent d (5 * minute) at now h.failed_attempts short later,
  )

  Alike-eq : {h h' k k' : RequestHistory} → h' ≡ k' → h ≡ k → Alike k' k → Alike h' h
  Alike-eq e' e (requests, failures) = (
    ap (λ u. recent d at u.requests) e' ∙ requests ∙ ap (λ u. recent d at u.requests) (sym e),
    ap (λ u. recent d at u.failed_attempts) e'
        ∙ failures
        ∙ ap (λ u. recent d at u.failed_attempts) (sym e),
  )

  idle-Alike : (h : RequestHistory) → is_idle (cleaned now h) ≡ true → Alike empty_history h
  idle-Alike h idle =
      let (requests, failures) = cleaned-Alike h in
      let none_left = empty_of_length (cleaned now h).requests (ground arith) in
      let none_failed = empty_of_length (cleaned now h).failed_attempts (ground arith) in
      (ap (recent d at) (sym none_left) ∙ requests, ap (recent d at) (sym none_failed) ∙ failures)

  cleanup_from-Alike :
      (key : String) (m : Dict RequestHistory)
      → Distinct m
      → Alike (lookup_or empty_history key (cleanup_from now m)) (lookup_or empty_history key m)
  unfolding cleanup_from
  cleanup_from-Alike key [] u = (refl, refl)
  cleanup_from-Alike key ((k, held) ∷ m) (ne, u) = elim (Bool-cases (is_idle (cleaned now held))) [
    | inl idle ↦ elim (Bool-cases (k =ˢ key)) [
      | inl same ↦
          let apart : All (λ e. e.0 ≢ key) m =
            subst (λ j. All (λ e. e.0 ≢ j) m) ((eq_iff k key).0 same) ne in
          let gone =
            lookup_or-missing empty_history key (cleanup_from now m)
              (cleanup_from-missing now key m apart) in
          rw idle
            (Alike-eq gone (lookup_or-head empty_history key k held m same) (idle-Alike held idle))
      | inr other ↦ rw idle (
          Alike-eq {h' = lookup_or empty_history key (cleanup_from now m)} refl
            (lookup_or-tail empty_history key k held m other) (cleanup_from-Alike key m u))
    ]
    | inr busy ↦ elim (Bool-cases (k =ˢ key)) [
      | inl same ↦ rw busy (
          Alike-eq (lookup_or-head empty_history key k (cleaned now held) (cleanup_from now m) same)
            (lookup_or-head empty_history key k held m same) (cleaned-Alike held))
      | inr other ↦ rw busy (
          Alike-eq
            (lookup_or-tail empty_history key k (cleaned now held) (cleanup_from now m) other)
            (lookup_or-tail empty_history key k held m other) (cleanup_from-Alike key m u))
    ]
  ]

-- Where no two histories have one key, which the clean-up preserves: no check that looks back up to five
-- minutes, from the time of the clean-up or later, can tell a detector from one that was cleaned up,
-- neither by the requests nor by the failed attempts of any source; and no history stays that is empty.
pub cleanup_invisible :
    (d : ℕ) (now at : Time) (key : String) (ad : AbuseDetector)
    → d ≤ 5 * minute
    → now ≤ at
    → Distinct ad.request_history
    → let ad' = cleanup_old_data now ad in
      (recent d at (history_of key ad').requests ≡ recent d at (history_of key ad).requests)
      × (recent d at (history_of key ad').failed_attempts
          ≡ recent d at (history_of key ad).failed_attempts)
      × All (λ e. is_idle e.1 ≡ false) ad'.request_history
      × Distinct ad'.request_history
unfolding cleanup_old_data history_of
cleanup_invisible d now at key ad short later u =
    let (requests, failures) = cleanup_from-Alike d now at short later key ad.request_history u in
    (
      requests,
      failures,
      cleanup_from-busy now ad.request_history,
      cleanup_from-Distinct now ad.request_history u,
    )
