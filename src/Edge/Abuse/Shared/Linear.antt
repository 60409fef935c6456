-- ===== src/Edge/Abuse/Shared/Linear.antt =====
-- Calls of `trackRequest` at the same time come to the same as one after the other.
use mathlib.Core.List.{Memᴰ}
use axiler_fin.Base.{
  ℕ, zero, suc, ◌≡◌, ◌≢◌, inl, inr, refl, sym, ap, ◌∙◌, subst, String, List, [], ◌∷◌, map, Option,
  none, some, Bool-cases, lookup, get_elem?, set, get_elem?-set_self, get_elem?-set_ne, ◌==◌, ◌=ˢ◌,
  eq_iff, All, All-get, All-set, All-mono, arith,
}
use axiler_fin.Edge.Abuse.{AbuseDetector}
use axiler_fin.Edge.Abuse.History.{tracked}
use axiler_fin.Edge.Abuse.History.Window.{
  Event, event_key, history_of, track_all, track_request-history_of,
}
use axiler_fin.Edge.Abuse.History.{track_request}
use axiler_fin.Edge.Abuse.Shared.{
  Shared, find_or_create, append_at, Tracker, begun, holding, returned, Runs, stop, find, append,
}
use axiler_fin.Edge.Abuse.Shared.Pointers.{held, Good, found, Appended, appended}

-- A call's pointer is the one in the table.
abbrev pub Holds : Shared → Tracker → Type 0
Holds sh (begun e) = Unit
Holds sh (holding e pointer) = lookup (event_key e) sh.table ≡ some pointer
Holds sh returned = Unit

Holds-kept :
    (sh sh' : Shared)
    → ((k : String) (p : ℕ) → lookup k sh.table ≡ some p → lookup k sh'.table ≡ some p)
    → (t : Tracker) → Holds sh t
    → Holds sh' t
Holds-kept sh sh' kept (begun e) h = tt
Holds-kept sh sh' kept (holding e p) h = kept (event_key e) p h
Holds-kept sh sh' kept returned h = tt

-- The detector holds the same histories.
abbrev pub Agrees : Shared → AbuseDetector → Type 0
Agrees sh ad = (key : String) → held key sh ≡ history_of key ad

append-Agrees :
    (e : Event) (sh sh' : Shared) (ad : AbuseDetector) (p : ℕ) (good : Good sh)
    (known : lookup (event_key e) sh.table ≡ some p)
    → Appended e p sh good known sh'
    → Agrees sh ad
    → Agrees sh' (track_request e.at e.request e.tenant e.abusive ad)
append-Agrees e sh sh' ad p good known a agrees key =
    let (own, others) = track_request-history_of e.at e.request e.tenant e.abusive ad in
    elim (Bool-cases (key =ˢ event_key e)) [
      | inl same ↦
          let is_own : event_key e ≡ key = sym ((eq_iff key (event_key e)).0 same) in
          subst
            (λ k. held k sh' ≡ history_of k (track_request e.at e.request e.tenant e.abusive ad))
            is_own (a.own ∙ ap (tracked e.at e.abusive) (agrees (event_key e)) ∙ sym own)
      | inr other ↦
          let ne : key ≢ event_key e = λ same. cc (other, (eq_iff key (event_key e)).1 same) in
          a.others key ne ∙ agrees key ∙ sym (others key ne)
    ]

Runs-Agrees :
    {ts ts' : List Tracker} {sh sh' : Shared} {events : List Event}
    → Runs ts sh events ts' sh'
    → (ad : AbuseDetector) → Good sh
    → All (Holds sh) ts
    → Agrees sh ad
    → Agrees sh' (track_all events ad)
unfolding track_all
Runs-Agrees stop ad good holds agrees = agrees
Runs-Agrees (find i {e} {ts} {ts'} {sh} {sh'} {events} at rest) ad good holds agrees =
    let f = found (event_key e) sh good in
    Runs-Agrees rest ad f.good_after
      (All-set (Holds (find_or_create (event_key e) sh).1) ts i _ f.pointer
        (All-mono (Holds-kept sh (find_or_create (event_key e) sh).1 f.kept) ts holds))
      (λ key. f.same key ∙ agrees key)
Runs-Agrees (append i {e} {pointer = p} {ts} {ts'} {sh} {sh'} {events} at rest) ad good holds
      agrees =
    let known : lookup (event_key e) sh.table ≡ some p = All-get (Holds sh) ts i at holds in
    let a = appended e p sh good known in
    Runs-Agrees rest (track_request e.at e.request e.tenant e.abusive ad) a.good_after
      (All-set (Holds (append_at p e sh)) ts i returned tt (
        All-mono (Holds-kept sh (append_at p e sh) (λ k q there. ap (lookup k) a.table ∙ there)) ts
          holds))
      (append-Agrees e sh (append_at p e sh) ad p good known a agrees)

-- What a call has still to append.
abbrev due : Tracker → Option Event
due (begun e) = some e
due (holding e pointer) = some e
due returned = none

-- The call at a place has still to append the event.
abbrev Due : List Tracker → ℕ → Event → Type 0
Due ts j e = (t : Tracker) × (get_elem? ts j ≡ some t) × (due t ≡ some e)

Due-set :
    (ts : List Tracker) (i j : ℕ) (e : Event) (t t' : Tracker)
    → get_elem? ts i ≡ some t
    → due t' ≡ due t
    → Due ts j e
    → Due (set ts i t') j e
Due-set ts i j e t t' at same (u, there, owed) = elim (Bool-cases (j == i)) [
  | inl here ↦
      let is_here : j ≡ i = ground arith in
      let is_t : u ≡ t = ground arith in
      (t', rw is_here (get_elem?-set_self ts i t' at), same ∙ ap due (sym is_t) ∙ owed)
  | inr elsewhere ↦ (u, get_elem?-set_ne ts j i t' elsewhere ∙ there, owed)
]

-- A call that has returned has appended its event.
Runs-recorded :
    {ts ts' : List Tracker} {sh sh' : Shared} {events : List Event}
    → Runs ts sh events ts' sh'
    → (j : ℕ) (e : Event) → Due ts j e
    → get_elem? ts' j ≡ some returned
    → Memᴰ e events
Runs-recorded stop j e (t, there, owed) back =
    let is_back : t ≡ returned = ground arith in
    let nothing : due t ≡ none = ap due is_back in absurd (ground arith)
Runs-recorded (find i {e = x} {ts} {ts'} {sh} at rest) j e d back =
    Runs-recorded rest j e
      (Due-set ts i j e (begun x) (holding x (find_or_create (event_key x) sh).0) at refl d) back
Runs-recorded (append i {e = x} {pointer = p} {ts} at rest) j e (t, there, owed) back =
    elim (Bool-cases (j == i)) [
      | inl here ↦
          let is_here : j ≡ i = ground arith in
          let is_t : t ≡ holding x p = ground arith in
          let is_x : some x ≡ some e = ap due (sym is_t) ∙ owed in Memᴰ.head (ground arith)
      | inr elsewhere ↦ Memᴰ.tail (
          Runs-recorded rest j e (t, get_elem?-set_ne ts j i returned elsewhere ∙ there, owed) back)
    ]

begun-Due : (es : List Event) (j : ℕ) (e : Event) → get_elem? es j ≡ some e → Due (map begun es) j e
begun-Due [] j e at = absurd (ground arith)
begun-Due (x ∷ es) zero e at = (begun x, refl, at)
begun-Due (x ∷ es) (suc j) e at = begun-Due es j e at

begun-Holds : (sh : Shared) (es : List Event) → All (Holds sh) (map begun es)
begun-Holds sh [] = tt
begun-Holds sh (e ∷ es) = (tt, begun-Holds sh es)

-- Calls of `trackRequest` are linearisable. Start any number of them, and let each go on in its two
-- parts, the look-up and the append, in any order among the others': the histories that the pointers
-- then lead to are those that the calls made one after the other, in the order of their appends,
-- leave; and the event of every call that has returned is among those. No request is lost.
pub linear :
    (es : List Event) (sh sh' : Shared) (ad : AbuseDetector) {events : List Event}
    {ts' : List Tracker}
    → Good sh
    → Agrees sh ad
    → Runs (map begun es) sh events ts' sh'
    → Agrees sh' (track_all events ad)
      × ((j : ℕ) (e : Event)
          → get_elem? es j ≡ some e
          → get_elem? ts' j ≡ some returned
          → Memᴰ e events)
linear es sh sh' ad good agrees runs = (
  Runs-Agrees runs ad good (begun-Holds sh es) agrees,
  λ j e at back. Runs-recorded runs j e (begun-Due es j e at) back,
)
