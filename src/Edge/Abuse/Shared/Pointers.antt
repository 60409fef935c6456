-- ===== src/Edge/Abuse/Shared/Pointers.antt =====
-- What `getOrCreateHistory` and an append do to the histories that the pointers lead to.
use axiler_fin.Base.{
  ℕ, zero, suc, ◌≡◌, ◌≢◌, ◌⊎◌, inl, inr, refl, sym, ap, ◌∙◌, subst, String, List, [], ◌∷◌, ◌++◌,
  length, Option, none, some, Option-cases, Bool-cases, lookup, insert, lookup-insert,
  lookup-insert_self, lookup-insert_ne, get_elem?, set, get_elem?-set_self, get_elem?-set_ne, ◌==◌,
  ◌=ˢ◌, eq_iff, arith,
}
use axiler_fin.Edge.Abuse.{RequestHistory}
use axiler_fin.Edge.Abuse.History.{empty_history, tracked}
use axiler_fin.Edge.Abuse.History.Window.{Event, event_key}
use axiler_fin.Edge.Abuse.Shared.{Shared, find_or_create, change, append_at}

module _ {A : Type 0} where
  get_elem?-append :
      (xs ys : List A) (i : ℕ) {x : A} → get_elem? xs i ≡ some x → get_elem? (xs ++ ys) i ≡ some x
  get_elem?-append [] ys i e = absurd (ground arith)
  get_elem?-append (y ∷ xs) ys zero e = e
  get_elem?-append (y ∷ xs) ys (suc i) e = get_elem?-append xs ys i e

  get_elem?-end : (xs : List A) (y : A) → get_elem? (xs ++ y ∷ []) (length xs) ≡ some y
  get_elem?-end [] y = refl
  get_elem?-end (x ∷ xs) y = get_elem?-end xs y

  get_elem?-length : (xs : List A) → get_elem? xs (length xs) ≡ none
  get_elem?-length [] = refl
  get_elem?-length (x ∷ xs) = get_elem?-length xs

-- The pointer is one to a history, and which.
abbrev pub Stored : List RequestHistory → ℕ → Type 0
Stored heap pointer = (h : RequestHistory) × (get_elem? heap pointer ≡ some h)

abbrev pub or_empty : Option RequestHistory → RequestHistory
or_empty none = empty_history
or_empty (some h) = h

abbrev pub pointed : List RequestHistory → Option ℕ → RequestHistory
pointed heap none = empty_history
pointed heap (some pointer) = or_empty (get_elem? heap pointer)

-- What is held for a key: the empty history where there is none.
unfoldable pub held : String → Shared → RequestHistory
held key sh = pointed sh.heap (lookup key sh.table)

-- Every entry points to a history, and no two to the same.
pub record Good (sh : Shared) : Type 0 where
  pub stored : (key : String) (p : ℕ) → lookup key sh.table ≡ some p → Stored sh.heap p
  pub apart :
      (key key' : String) (p : ℕ)
      → lookup key sh.table ≡ some p
      → lookup key' sh.table ≡ some p
      → key ≡ key'

module _ (key : String) (sh : Shared) (good : Good sh) where
  -- `getOrCreateHistory` keeps what there is, and gives the pointer that the table has then.
  pub record Found (result : ℕ × Shared) : Type 0 where
    pub good_after : Good result.1
    pub pointer : lookup key result.1.table ≡ some result.0
    pub kept : (k : String) (p : ℕ) → lookup k sh.table ≡ some p → lookup k result.1.table ≡ some p
    pub same : (k : String) → held k result.1 ≡ held k sh

  find-known : (p : ℕ) → lookup key sh.table ≡ some p → Found (find_or_create key sh)
  unfolding find_or_create
  find-known p known =
      rw (known, find_or_create)
        (record { good_after = good; pointer = known; kept = λ k q e. e; same = λ k. refl })

  -- Where the pointers of the table with a new entry come from.
  insert-cases :
      (n : ℕ) (k : String) (p : ℕ)
      → lookup k (insert key n sh.table) ≡ some p
      → ((k ≡ key) × (p ≡ n)) ⊎ (lookup k sh.table ≡ some p)
  insert-cases n k p e = elim (Bool-cases (key =ˢ k)) [
    | inl same ↦ inl (sym ((eq_iff key k).0 same), ground (arith, lookup-insert key k n sh.table))
    | inr other ↦ inr (ground (arith, lookup-insert key k n sh.table))
  ]

  fresh_pointer : (k : String) → lookup k sh.table ≢ some (length sh.heap)
  fresh_pointer k e =
      let (h, there) = good.stored k (length sh.heap) e in cc (there, get_elem?-length sh.heap)

  new-Good : Good (record {
    table = insert key (length sh.heap) sh.table;
    heap = sh.heap ++ empty_history ∷ [];
  })
  new-Good = record {
    stored = λ k p e. elim (insert-cases (length sh.heap) k p e) [
      | inl (same, last) ↦ (empty_history, rw last (get_elem?-end sh.heap empty_history))
      | inr before ↦
          let (h, there) = good.stored k p before in
          (h, get_elem?-append sh.heap (empty_history ∷ []) p there)
    ];
    apart = λ k k' p e e'. elim (insert-cases (length sh.heap) k p e) [
      | inl (same, last) ↦ elim (insert-cases (length sh.heap) k' p e') [
        | inl (same', last') ↦ same ∙ sym same'
        | inr before' ↦ absurd (fresh_pointer k' (before' ∙ ap some last))
      ]
      | inr before ↦ elim (insert-cases (length sh.heap) k' p e') [
        | inl (same', last') ↦ absurd (fresh_pointer k (before ∙ ap some last'))
        | inr before' ↦ good.apart k k' p before before'
      ]
    ];
  }

  new-held :
      lookup key sh.table ≡ none
      → (k : String)
      → held k (record {
        table = insert key (length sh.heap) sh.table;
        heap = sh.heap ++ empty_history ∷ [];
      })
        ≡ held k sh
  unfolding held
  new-held missing k = elim (Bool-cases (key =ˢ k)) [
    | inl same ↦
        let missing_k : lookup k sh.table ≡ none =
          subst (λ j. lookup j sh.table ≡ none) ((eq_iff key k).0 same) missing in
        rw (lookup-insert, same, missing_k, get_elem?-end sh.heap empty_history) refl
    | inr other ↦ elim (Option-cases (lookup k sh.table)) [
      | inl absent ↦ rw (lookup-insert, other, absent) refl
      | inr (p, there) ↦
          let (h, e) = good.stored k p there in
          rw (lookup-insert, other, there, e, get_elem?-append sh.heap (empty_history ∷ []) p e)
            refl
    ]
  ]

  find-new : lookup key sh.table ≡ none → Found (find_or_create key sh)
  unfolding find_or_create
  find-new missing =
      let other : (k : String) (p : ℕ) → lookup k sh.table ≡ some p → k ≢ key =
        λ k p e same. cc (e, missing, same) in
      rw (missing, find_or_create)
        (record {
          good_after = new-Good;
          pointer = lookup-insert_self key (length sh.heap) sh.table;
          kept = λ k p e. lookup-insert_ne key k (length sh.heap) sh.table (other k p e) ∙ e;
          same = new-held missing;
        })

  pub found : Found (find_or_create key sh)
  found = elim (Option-cases (lookup key sh.table)) [
    | inl missing ↦ find-new missing
    | inr (p, known) ↦ find-known p known
  ]

module _ (e : Event) (p : ℕ) (sh : Shared) (good : Good sh)
    (known : lookup (event_key e) sh.table ≡ some p) where
  -- An append changes what is held for its own key, by the event, and for no other.
  pub record Appended (after : Shared) : Type 0 where
    pub good_after : Good after
    pub table : after.table ≡ sh.table
    pub own : held (event_key e) after ≡ tracked e.at e.abusive (held (event_key e) sh)
    pub others : (k : String) → k ≢ event_key e → held k after ≡ held k sh

  module _ (h : RequestHistory) (there : get_elem? sh.heap p ≡ some h) where
    abbrev written : Shared
    written = record sh { heap = set sh.heap p (tracked e.at e.abusive h) }

    written-Stored :
        (q : ℕ) → Stored sh.heap q → Stored (set sh.heap p (tracked e.at e.abusive h)) q
    written-Stored q (g, at) = elim (Bool-cases (q == p)) [
      | inl same ↦
          let q_is : q ≡ p = ground arith in
          (tracked e.at e.abusive h, rw q_is (get_elem?-set_self sh.heap p _ there))
      | inr other ↦ (g, get_elem?-set_ne sh.heap q p _ other ∙ at)
    ]

    written-others : (k : String) → k ≢ event_key e → held k written ≡ held k sh
    unfolding held
    written-others k ne = elim (Option-cases (lookup k sh.table)) [
      | inl absent ↦ rw absent refl
      | inr (q, at) ↦ elim (Bool-cases (q == p)) [
        | inl same ↦
            let q_is : q ≡ p = ground arith in
            absurd (ne (good.apart k (event_key e) p (at ∙ ap some q_is) known))
        | inr other ↦ rw (at, get_elem?-set_ne sh.heap q p _ other) refl
      ]
    ]

    written-Appended : Appended written
    unfolding held
    written-Appended = record {
      good_after = record {
        stored = λ k q at. written-Stored q (good.stored k q at);
        apart = good.apart;
      };
      table = refl;
      own = rw (known, there, get_elem?-set_self sh.heap p _ there) refl;
      others = written-others;
    }

  pub appended : Appended (append_at p e sh)
  unfolding append_at
  appended =
      let (h, there) = good.stored (event_key e) p known in
      rw (there, append_at, change) (written-Appended h there)
