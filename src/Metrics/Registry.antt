-- ===== src/Metrics/Registry.antt =====
-- `New` of pkg/metrics/metrics.go: the registration of the vectors. The registerer, of the Prometheus
-- client, is a parameter.
use mathlib.Core.List.{Memᴰ}
use axiler_fin.Base.{
  ℕ, ◌≡◌, ◌⊎◌, ◌↔◌, inl, inr, refl, sym, ap, ◌∙◌, String, Bool, true, false, not, Option, none,
  some, List, [], ◌∷◌, map, get_elem?, zero, suc, all, any, ◌||◌, ◌&&◌, ltb, leb, ◌=ˢ◌, eq_iff,
  ◌==◌, codes, has_prefix, arith,
}
use axiler_fin.Metrics.{
  Metric, Opts, options, requests_total, request_latency, requests_in_flight, edge_auth_failures,
  edge_rate_limit_hits, edge_suspicious, search_requests_total, transfers_total, transfer_amount,
  service_health, health_check_failures, vault_auth_duration, database_latency,
}

-- A registerer. `register` is `Register`, with none for an error; `Has s n` says that a vector of the
-- name `n` is registered.
pub record Registerer : Type 1 where
  pub State : Type 0
  pub register : Opts → State → Option State
  pub Has : State → String → Type 0

-- `[a-zA-Z_][a-zA-Z0-9_]*`
abbrev is_letter : ℕ → Bool
is_letter c = (leb b'a' c && leb c b'z') || (leb b'A' c && leb c b'Z') || (c == b'_')

abbrev is_name : List ℕ → Bool
is_name [] = false
is_name (c ∷ cs) = is_letter c && all (λ d. is_letter d || (leb b'0' d && leb d b'9')) cs

abbrev is_increasing : List ℕ → Bool
is_increasing [] = true
is_increasing (b ∷ []) = true
is_increasing (b ∷ c ∷ bs) = ltb b c && is_increasing (c ∷ bs)

abbrev differ : List String → Bool
differ [] = true
differ (n ∷ ns) = not (any (λ m. n =ˢ m) ns) && differ ns

-- What suffices for the client to take a vector: proper names, different labels, of which none is
-- reserved, and rising bounds of the buckets.
unfoldable pub is_valid : Opts → Bool
is_valid o =
    is_name (codes o.name)
    && all (λ l. is_name (codes l) && not (has_prefix (codes l) (codes "__")) && not (l =ˢ "le"))
        o.labels
    && differ o.labels
    && is_increasing o.buckets

-- What `Register` documents: a vector is not registered where its name is taken, and a valid one is
-- where it is not.
pub record RegistererLaws (reg : Registerer) : Type 0 where
  pub taken : (o : Opts) (s : reg.State) → reg.Has s o.name → reg.register o s ≡ none
  pub fresh :
      (o : Opts) (s : reg.State)
      → is_valid o ≡ true
      → ¬ reg.Has s o.name
      → (s' : reg.State) × (reg.register o s ≡ some s')
        × ((n : String) → reg.Has s' n ↔ (reg.Has s n ⊎ (o.name ≡ n)))

-- The arguments of `MustRegister`, in order.
abbrev pub registered : List Metric
registered =
    requests_total ∷ request_latency ∷ requests_in_flight ∷ edge_auth_failures
    ∷ edge_rate_limit_hits ∷ edge_suspicious ∷ search_requests_total ∷ transfers_total
    ∷ transfer_amount ∷ service_health ∷ health_check_failures ∷ vault_auth_duration
    ∷ database_latency ∷ []

module _ (reg : Registerer) where
  open reg use {State, register, Has}

  -- `MustRegister` registers its arguments one after the other and panics on the first error: none.
  abbrev must_register : List Metric → State → Option State
  must_register [] s = some s
  must_register (m ∷ ms) s = elim (register (options m) s) [
    | none ↦ none
    | some s' ↦ must_register ms s'
  ]

  -- `New`, by what it does to the registerer.
  unfoldable pub new : State → Option State
  new s = must_register registered s

every_valid : (m : Metric) → is_valid (options m) ≡ true
unfolding options is_valid has_prefix
every_valid requests_total = refl
every_valid request_latency = refl
every_valid requests_in_flight = refl
every_valid edge_auth_failures = refl
every_valid edge_rate_limit_hits = refl
every_valid edge_suspicious = refl
every_valid search_requests_total = refl
every_valid transfers_total = refl
every_valid transfer_amount = refl
every_valid service_health = refl
every_valid health_check_failures = refl
every_valid vault_auth_duration = refl
every_valid database_latency = refl

-- A name that differs from the first ones of a list without duplicates.
differ-ne :
    (k : String) (m : Metric) (ms : List Metric)
    → any (λ n. k =ˢ n) (map (λ x. (options x).name) ms) ≡ false
    → Memᴰ m ms
    → ¬ (k ≡ (options m).name)
differ-ne k m [] h there e = elim there [ ]
differ-ne k m (x ∷ ms) h (Memᴰ.head same) e =
    let here : k ≡ (options x).name = e ∙ ap (λ y. (options y).name) same in
    absurd (ground (arith, eq_iff k (options x).name))
differ-ne k m (x ∷ ms) h (Memᴰ.tail later) e = differ-ne k m ms (ground arith) later e

differ-cons :
    (k : String) (ns : List String)
    → differ (k ∷ ns) ≡ true
    → (any (λ n. k =ˢ n) ns ≡ false) × (differ ns ≡ true)
differ-cons k ns h = (ground arith, ground arith)

-- The names of some of the vectors.
abbrev pub Named : List Metric → String → Type 0
Named ms n = (m : Metric) × Memᴰ m ms × ((options m).name ≡ n)

Memᴰ_of_get : (ms : List Metric) (i : ℕ) (m : Metric) → get_elem? ms i ≡ some m → Memᴰ m ms
Memᴰ_of_get [] i m e = absurd (ground arith)
Memᴰ_of_get (x ∷ ms) zero m e = Memᴰ.head (cc e)
Memᴰ_of_get (x ∷ ms) (suc i) m e = Memᴰ.tail (Memᴰ_of_get ms i m e)

every_registered : (m : Metric) → Memᴰ m registered
every_registered requests_total = Memᴰ_of_get registered 0 requests_total refl
every_registered request_latency = Memᴰ_of_get registered 1 request_latency refl
every_registered requests_in_flight = Memᴰ_of_get registered 2 requests_in_flight refl
every_registered edge_auth_failures = Memᴰ_of_get registered 3 edge_auth_failures refl
every_registered edge_rate_limit_hits = Memᴰ_of_get registered 4 edge_rate_limit_hits refl
every_registered edge_suspicious = Memᴰ_of_get registered 5 edge_suspicious refl
every_registered search_requests_total = Memᴰ_of_get registered 6 search_requests_total refl
every_registered transfers_total = Memᴰ_of_get registered 7 transfers_total refl
every_registered transfer_amount = Memᴰ_of_get registered 8 transfer_amount refl
every_registered service_health = Memᴰ_of_get registered 9 service_health refl
every_registered health_check_failures = Memᴰ_of_get registered 10 health_check_failures refl
every_registered vault_auth_duration = Memᴰ_of_get registered 11 vault_auth_duration refl
every_registered database_latency = Memᴰ_of_get registered 12 database_latency refl

names_differ : differ (map (λ m. (options m).name) registered) ≡ true
unfolding options
names_differ = refl

module _ (reg : Registerer) (laws : RegistererLaws reg) where
  open reg use {State, register, Has}

  -- The vectors are registered, and nothing else is.
  pub record Added (ms : List Metric) (s : State) (result : Option State) : Type 0 where
    pub after : State
    pub done : result ≡ some after
    pub names : (n : String) → Has after n ↔ (Has s n ⊎ Named ms n)

  must_register-Added :
      (ms : List Metric) (s : State)
      → differ (map (λ m. (options m).name) ms) ≡ true
      → ((m : Metric) → Memᴰ m ms → ¬ Has s (options m).name)
      → Added ms s (must_register reg ms s)
  must_register-Added [] s d free = record {
    after = s;
    done = refl;
    names = λ n. (inl, λ h. elim h [ inl here ↦ here | inr (m, there, e) ↦ elim there [ ] ]);
  }
  must_register-Added (m ∷ ms) s d free =
      let (s', registers, has) =
        laws.fresh (options m) s (every_valid m) (free m (Memᴰ.head refl)) in
      let (new, others) = differ-cons (options m).name (map (λ x. (options x).name) ms) d in
      let rest = must_register-Added ms s' others (λ x later held. elim ((has _).0 held) [
        | inl before ↦ free x (Memᴰ.tail later) before
        | inr same ↦ differ-ne (options m).name x ms new later same
      ]) in
      record {
        after = rest.after;
        done = rw (registers, must_register) rest.done;
        names = λ n. (
          λ held. elim ((rest.names n).0 held) [
            | inl before ↦ elim ((has n).0 before) [
              | inl there ↦ inl there
              | inr same ↦ inr (m, Memᴰ.head refl, same)
            ]
            | inr (x, later, e) ↦ inr (x, Memᴰ.tail later, e)
          ],
          λ h. (rest.names n).1 (elim h [
            | inl there ↦ inl ((has n).1 (inl there))
            | inr (x, Memᴰ.head same, e) ↦
                inl ((has n).1 (inr (ap (λ y. (options y).name) (sym same) ∙ e)))
            | inr (x, Memᴰ.tail later, e) ↦ inr (x, later, e)
          ]),
        );
      }

  -- Where none of the thirteen names is taken, `New` does not panic, and registers its thirteen vectors
  -- and nothing else; a second `New` on the same registerer panics.
  pub new_registers :
      (s : State)
      → ((m : Metric) → ¬ Has s (options m).name)
      → (s' : State) × (new reg s ≡ some s')
        × ((n : String) → Has s' n ↔ (Has s n ⊎ ((m : Metric) × ((options m).name ≡ n))))
        × (new reg s' ≡ none)
  unfolding new
  new_registers s free =
      let a = must_register-Added registered s names_differ (λ m there. free m) in
      (
        a.after,
        a.done,
        λ n. (
          λ held. elim ((a.names n).0 held) [
            | inl here ↦ inl here
            | inr (m, there, e) ↦ inr (m, e)
          ],
          λ h.
              (a.names n).1
                (elim h [ inl here ↦ inl here | inr (m, e) ↦ inr (m, every_registered m, e) ]),
        ),
        rw
            (
              laws.taken (options requests_total) a.after (
                  (a.names (options requests_total).name).1
                    (inr (requests_total, every_registered requests_total, refl))),
              new,
            )
            refl,
      )
