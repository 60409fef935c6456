-- ===== src/Edge/Abuse/Shared.antt =====
-- abuse.go under concurrency: the map holds pointers to the histories, `getOrCreateHistory` hands one
-- out under the detector's mutex, and what its caller does to the history comes later, under the
-- history's own. A pointer is an index into the list of the histories that were ever made.
pub mod Pointers
pub mod Linear
pub mod Lost
use axiler_fin.Base.{
  ℕ, ◌≡◌, String, Bool, List, [], ◌∷◌, ◌++◌, length, Option, none, some, Dict, lookup, insert,
  get_elem?, set, if◌then◌else◌, ◌=ˢ◌,
}
use axiler_fin.Base.{◌≡◌}
use axiler_fin.Models.{Time}
use axiler_fin.Edge.Abuse.{RequestHistory}
use axiler_fin.Edge.Abuse.History.{empty_history, tracked, cleaned, is_idle}
use axiler_fin.Edge.Abuse.History.Window.{Event, event_key}

pub record Shared : Type 0 where
  -- `requestHistory`
  pub table : Dict ℕ
  pub heap : List RequestHistory

-- `getOrCreateHistory`, the whole of which the detector's mutex covers.
unfoldable pub find_or_create : String → Shared → ℕ × Shared
find_or_create key sh = elim (lookup key sh.table) [
  | some pointer ↦ (pointer, sh)
  | none ↦ (
    length sh.heap,
    record { table = insert key (length sh.heap) sh.table; heap = sh.heap ++ empty_history ∷ [] },
  )
]

-- What the pointer points to, changed.
abbrev pub change :
    ℕ → (RequestHistory → RequestHistory) → List RequestHistory → List RequestHistory
change pointer f heap = elim (get_elem? heap pointer) [
  | none ↦ heap
  | some history ↦ set heap pointer (f history)
]

-- `trackRequest` from `history.mu.Lock()` on.
unfoldable pub append_at : ℕ → Event → Shared → Shared
append_at pointer e sh = record sh { heap = change pointer (tracked e.at e.abusive) sh.heap }

-- A pass of the loop of `CleanupOldData`, up to `history.mu.Unlock()`.
unfoldable pub tidy : String → Time → Shared → Shared
tidy key now sh = elim (lookup key sh.table) [
  | none ↦ sh
  | some pointer ↦ record sh { heap = change pointer (cleaned now) sh.heap }
]

abbrev pub delete : String → Dict ℕ → Dict ℕ
delete key [] = []
delete key ((k, pointer) ∷ table) =
    if k =ˢ key then delete key table else (k, pointer) ∷ delete key table

-- The rest of the pass: the entry goes if its history is empty.
abbrev drop_found : String → Option RequestHistory → Shared → Shared
drop_found key none sh = sh
drop_found key (some history) sh =
    if is_idle history then record sh { table = delete key sh.table } else sh

unfoldable pub drop_idle : String → Shared → Shared
drop_idle key sh = elim (lookup key sh.table) [
  | none ↦ sh
  | some pointer ↦ drop_found key (get_elem? sh.heap pointer) sh
]

-- A call of `trackRequest`: not begun, or with a pointer, or returned.
pub data Tracker : Type 0 where
  begun : Event → Tracker
  holding : Event → ℕ → Tracker
  returned : Tracker

-- Any of the calls goes on. The events are those appended, in the order in which that happens.
pub data Runs : List Tracker → Shared → List Event → List Tracker → Shared → Type 0 where
  stop : {ts : List Tracker} {sh : Shared} → Runs ts sh [] ts sh
  find :
      (i : ℕ) {e : Event} {ts ts' : List Tracker} {sh sh' : Shared} {events : List Event}
      → get_elem? ts i ≡ some (begun e)
      → Runs
          (set ts i (holding e (find_or_create (event_key e) sh).0))
          (find_or_create (event_key e) sh).1
          events
          ts'
          sh'
      → Runs ts sh events ts' sh'
  append :
      (i : ℕ) {e : Event} {pointer : ℕ} {ts ts' : List Tracker} {sh sh' : Shared}
      {events : List Event}
      → get_elem? ts i ≡ some (holding e pointer)
      → Runs (set ts i returned) (append_at pointer e sh) events ts' sh'
      → Runs ts sh (e ∷ events) ts' sh'
