-- ===== src/Edge/Abuse/History/Window.antt =====
-- The history of a source as a window on the times of its requests.
use mathlib.Core.List.{append_assoc, append-nil}
use axiler_fin.Base.{
  ℕ, ◌≤◌, String, List, [], ◌∷◌, ◌++◌, Bool, if◌then◌else◌, ◌≡◌, refl, arith, Bool-cases, ◌=ˢ◌, inl,
  inr, ap, subst, sym, ◌∙◌, All, none, Option-cases, lookup, insert, Dict, ◌≢◌, lookup_or,
  lookup-insert, eq_iff, lookup_or-insert_self, lookup_or-insert_ne,
}
use axiler_fin.Models.{Time}
use axiler_fin.Http.{Request}
use axiler_fin.Edge.Abuse.{RequestHistory, AbuseDetector}
use axiler_fin.Edge.Abuse.Client.{get_client_ip}
use axiler_fin.Edge.Abuse.History.{
  minute, recent, empty_history, source_key, get_or_create_history, tracked, put_history,
  track_request,
}

-- A longer and earlier window drops nothing that a shorter and later one keeps.
pub recent-recent :
    (d e : ℕ) (now then_ : Time) (ts : List Time)
    → d ≤ e
    → then_ ≤ now
    → recent d now (recent e then_ ts) ≡ recent d now ts
recent-recent d e now then_ [] h k = refl
recent-recent d e now then_ (t ∷ ts) h k = ground (arith, recent-recent d e now then_ ts h k)

recent-append :
    (d : ℕ) (now : Time) (ts us : List Time)
    → recent d now (ts ++ us) ≡ recent d now ts ++ recent d now us
recent-append d now [] us = refl
recent-append d now (t ∷ ts) us = ground (arith, recent-append d now ts us)

-- The history that the detector holds for a key: the empty one where there is none.
unfoldable pub history_of : String → AbuseDetector → RequestHistory
history_of key ad = lookup_or empty_history key ad.request_history

lookup_or-insert_default :
    {V : Type 0} (d : V) (key other : String) (m : Dict V)
    → lookup key m ≡ none
    → lookup_or d other (insert key d m) ≡ lookup_or d other m
unfolding lookup_or
lookup_or-insert_default d key other m missing =
    ground (arith, lookup-insert key other d m, eq_iff key other)

-- Looking a history up, or making it, changes what is held for no key.
pub get_or_create-history_of :
    (key : String) (ad : AbuseDetector)
    → ((get_or_create_history key ad).0 ≡ history_of key ad)
      × ((other : String) → history_of other (get_or_create_history key ad).1 ≡ history_of other ad)
unfolding get_or_create_history history_of lookup_or
get_or_create-history_of key ad = elim (Option-cases (lookup key ad.request_history)) [
  | inl missing ↦
      rw (missing, get_or_create_history)
        (
          rw (missing, lookup_or) refl,
          λ other. lookup_or-insert_default empty_history key other ad.request_history missing,
        )
  | inr (history, found) ↦
      rw (found, get_or_create_history) (rw (found, lookup_or) refl, λ other. refl)
]

put-history_of :
    (key : String) (h : RequestHistory) (ad : AbuseDetector)
    → (history_of key (put_history key h ad) ≡ h)
      × ((other : String)
          → other ≢ key
          → history_of other (put_history key h ad) ≡ history_of other ad)
unfolding history_of
put-history_of key h ad = (
  lookup_or-insert_self empty_history key h ad.request_history,
  λ other ne. lookup_or-insert_ne empty_history key other h ad.request_history ne,
)

-- What `trackRequest` does to the histories: the source's own is extended by the time, cut to the last
-- minute and counted if abusive, and no other is touched.
pub track_request-history_of :
    (now : Time) (r : Request) (tenant : String) (abusive : Bool) (ad : AbuseDetector)
    → let key = source_key tenant (get_client_ip r) in
      let ad' = track_request now r tenant abusive ad in
      (history_of key ad' ≡ tracked now abusive (history_of key ad))
      × ((other : String) → other ≢ key → history_of other ad' ≡ history_of other ad)
unfolding track_request
track_request-history_of now r tenant abusive ad =
    let key = source_key tenant (get_client_ip r) in
    let (same, rest) = get_or_create-history_of key ad in
    let (own, others) =
      put-history_of key (tracked now abusive (get_or_create_history key ad).0)
        (get_or_create_history key ad).1 in
    (own ∙ ap (tracked now abusive) same, λ other ne. others other ne ∙ rest other)

-- A request that was recorded.
pub record Event : Type 0 where
  pub at : Time
  pub request : Request
  pub tenant : String
  pub abusive : Bool

abbrev pub event_key : Event → String
event_key e = source_key e.tenant (get_client_ip e.request)

unfoldable pub track_all : List Event → AbuseDetector → AbuseDetector
track_all [] ad = ad
track_all (e ∷ events) ad = track_all events (track_request e.at e.request e.tenant e.abusive ad)

-- The times of the events of one source.
abbrev pub times_of : String → List Event → List Time
times_of key [] = []
times_of key (e ∷ events) =
    if event_key e =ˢ key then e.at ∷ times_of key events else times_of key events

pub tracked-recent :
    (d : ℕ) (now at : Time) (abusive : Bool) (h : RequestHistory) (ts : List Time)
    → d ≤ minute
    → at ≤ now
    → recent d now ((tracked at abusive h).requests ++ ts) ≡ recent d now (h.requests ++ (at ∷ ts))
tracked-recent d now at abusive h ts le k =
    recent-append d now (recent minute at (h.requests ++ at ∷ [])) ts
    ∙ ap (λ us. us ++ recent d now ts) (recent-recent d minute now at (h.requests ++ at ∷ []) le k)
    ∙ sym (recent-append d now (h.requests ++ at ∷ []) ts)
    ∙ ap (recent d now) (append_assoc h.requests (at ∷ []) ts)

-- The window is exact: of all requests of a source, those after `now - d`, for a `d` of up to a minute,
-- are the ones after `now - d` in its history, although the history is cut at every request and other
-- sources' requests come between; as long as none was recorded after `now`.
pub window_exact :
    (d : ℕ) (now : Time) (key : String) (events : List Event) (ad : AbuseDetector)
    → d ≤ minute
    → All (λ e. e.at ≤ now) events
    → recent d now (history_of key (track_all events ad)).requests
      ≡ recent d now ((history_of key ad).requests ++ times_of key events)
unfolding track_all
window_exact d now key [] ad h k = rw append-nil
window_exact d now key (e ∷ events) ad h (le, k) = elim (Bool-cases (event_key e =ˢ key)) [
  | inl own ↦
      let same : event_key e ≡ key = (eq_iff (event_key e) key).0 own in
      let ad' = track_request e.at e.request e.tenant e.abusive ad in
      let now_held : history_of key ad' ≡ tracked e.at e.abusive (history_of key ad) =
        subst (λ k'. history_of k' ad' ≡ tracked e.at e.abusive (history_of k' ad)) same
          (track_request-history_of e.at e.request e.tenant e.abusive ad).0 in
      window_exact d now key events ad' h k
      ∙ ap (λ u. recent d now (u.requests ++ times_of key events)) now_held
      ∙ tracked-recent d now e.at e.abusive (history_of key ad) (times_of key events) h le
      ∙ rw own refl
  | inr other ↦
      let ad' = track_request e.at e.request e.tenant e.abusive ad in
      let held : history_of key ad' ≡ history_of key ad =
        (track_request-history_of e.at e.request e.tenant e.abusive ad).1 key
          (λ eq. cc (other, (eq_iff (event_key e) key).1 (sym eq))) in
      window_exact d now key events ad' h k
      ∙ ap (λ u. recent d now (u.requests ++ times_of key events)) held
      ∙ rw other refl
]
