-- ===== src/Edge/Abuse/Shared/Lost.antt =====
-- A clean-up between the two parts of a call of `trackRequest`.
use mathlib.Core.List.{Memᴰ}
use axiler_fin.Base.{
  ℕ, ◌≡◌, refl, sym, ap, ◌∙◌, subst, String, Bool, true, List, [], ◌∷◌, ◌++◌, none, some, Dict,
  lookup, set, get_elem?, get_elem?-set_self, Bool-cases, inl, inr, keep, ◌=ˢ◌, arith,
}
use axiler_fin.Models.{Time}
use axiler_fin.Edge.Abuse.{RequestHistory, AbuseDetector}
use axiler_fin.Edge.Abuse.History.{
  is_within, minute, empty_history, tracked, cleaned, is_idle, track_request, cleanup_old_data,
}
use axiler_fin.Edge.Abuse.History.Window.{Event, event_key, history_of, track_request-history_of}
use axiler_fin.Edge.Abuse.Shared.{
  Shared, find_or_create, change, append_at, tidy, delete, drop_found, drop_idle,
}
use axiler_fin.Edge.Abuse.Shared.Pointers.{held, Good, found}

lookup-delete : (key : String) (table : Dict ℕ) → lookup key (delete key table) ≡ none
unfolding lookup
lookup-delete key [] = refl
lookup-delete key ((k, p) ∷ table) = elim (Bool-cases (k =ˢ key)) [
  | inl same ↦ rw same (lookup-delete key table)
  | inr other ↦ rw (other, other) (lookup-delete key table)
]

-- What is held under a name that the table has.
held-known :
    (key : String) (sh : Shared) (p : ℕ) (h : RequestHistory)
    → lookup key sh.table ≡ some p
    → get_elem? sh.heap p ≡ some h
    → held key sh ≡ h
unfolding held
held-known key sh p h known there = rw (known, there) refl

tidy-known :
    (key : String) (now : Time) (sh : Shared) (p : ℕ) (h : RequestHistory)
    → lookup key sh.table ≡ some p
    → get_elem? sh.heap p ≡ some h
    → tidy key now sh ≡ record sh { heap = set sh.heap p (cleaned now h) }
unfolding tidy
tidy-known key now sh p h known there = rw (tidy, known, there, change) refl

drop-known :
    (key : String) (sh : Shared) (p : ℕ) (h : RequestHistory)
    → lookup key sh.table ≡ some p
    → get_elem? sh.heap p ≡ some h
    → is_idle h ≡ true
    → drop_idle key sh ≡ record sh { table = delete key sh.table }
unfolding drop_idle
drop-known key sh p h known there idle = rw (drop_idle, known, there, drop_found, idle) refl

-- The clean-up of one key whose history comes out empty takes the key away.
cleaned_up :
    (key : String) (now : Time) (sh : Shared) (p : ℕ) (h : RequestHistory)
    → lookup key sh.table ≡ some p
    → get_elem? sh.heap p ≡ some h
    → is_idle (cleaned now h) ≡ true
    → drop_idle key (tidy key now sh)
      ≡ record { table = delete key sh.table; heap = set sh.heap p (cleaned now h) }
cleaned_up key now sh p h known there idle =
    ap (drop_idle key) (tidy-known key now sh p h known there)
    ∙ drop-known key (record sh { heap = set sh.heap p (cleaned now h) }) p (cleaned now h) known
        (get_elem?-set_self sh.heap p (cleaned now h) there) idle

-- Where the table has no entry, nothing is held, whatever is appended to a history.
append-missing :
    (key : String) (p : ℕ) (e : Event) (sh : Shared)
    → lookup key sh.table ≡ none
    → held key (append_at p e sh) ≡ empty_history
unfolding held append_at
append-missing key p e sh missing = rw missing refl

keep-mem :
    (p : Time → Bool) (x : Time) (ts : List Time) → Memᴰ x ts → p x ≡ true → Memᴰ x (keep p ts)
keep-mem p x [] m h = elim m [ ]
keep-mem p x (t ∷ ts) (Memᴰ.head e) h =
    let here : p t ≡ true = subst (λ u. p u ≡ true) e h in rw here (Memᴰ.head e)
keep-mem p x (t ∷ ts) (Memᴰ.tail m) h = elim (Bool-cases (p t)) [
  | inl kept ↦ rw kept (Memᴰ.tail (keep-mem p x ts m h))
  | inr left ↦ rw left (keep-mem p x ts m h)
]

end-mem : (x : Time) (ts : List Time) → Memᴰ x (ts ++ x ∷ [])
end-mem x [] = Memᴰ.head refl
end-mem x (t ∷ ts) = Memᴰ.tail (end-mem x ts)

-- A request is in the history that tracks it.
tracked-mem :
    (at : Time) (abusive : Bool) (h : RequestHistory) → Memᴰ at (tracked at abusive h).requests
tracked-mem at abusive h =
    keep-mem (is_within minute at) at (h.requests ++ at ∷ []) (end-mem at h.requests) (ground arith)

-- `trackRequest` with a clean-up, by `CleanupOldData`, of its key's entry between its look-up and its
-- append, where the history that it looks up is empty once it is cleaned, as a new one is: the request is
-- lost, since it goes to a history that the map has no more, and the map holds none for its source.
-- A call that begins after the clean-up instead leaves its request in the history, whatever the
-- detector held.
pub cleanup_loses :
    (e : Event) (now : Time) (sh : Shared) (ad : AbuseDetector)
    → Good sh
    → is_idle (cleaned now (held (event_key e) sh)) ≡ true
    → let key = event_key e in
      let (pointer, looked_up) = find_or_create key sh in
      (held key (append_at pointer e (drop_idle key (tidy key now looked_up))) ≡ empty_history)
      × Memᴰ e.at
          (history_of key
            (track_request e.at e.request e.tenant e.abusive (cleanup_old_data now ad))).requests
cleanup_loses e now sh ad good idle =
    let key = event_key e in
    let f = found key sh good in
    let sh' = (find_or_create key sh).1 in
    let p = (find_or_create key sh).0 in
    let (h, there) = f.good_after.stored key p f.pointer in
    let is_h : held key sh ≡ h = sym (f.same key) ∙ held-known key sh' p h f.pointer there in
    let empty : is_idle (cleaned now h) ≡ true =
      subst (λ x. is_idle (cleaned now x) ≡ true) is_h idle in
    let gone : lookup key (drop_idle key (tidy key now sh')).table ≡ none =
      ap (λ x. lookup key x.table) (cleaned_up key now sh' p h f.pointer there empty)
      ∙ lookup-delete key sh'.table in
    (
      append-missing key p e (drop_idle key (tidy key now sh')) gone,
      subst (λ x. Memᴰ e.at x.requests)
          (sym
            (track_request-history_of e.at e.request e.tenant e.abusive
              (cleanup_old_data now ad)).0)
          (tracked-mem e.at e.abusive (history_of key (cleanup_old_data now ad))),
    )
