-- ===== src/Transfer/Race.antt =====
-- Several transfers at once. The handler reads the accounts under the read lock, checks them with no
-- lock, and writes under the write lock: a request is served in two steps, between which others run.
pub mod Within
pub mod Isolation
pub mod Overdraft
use axiler_fin.Base.{ℕ, String, Option, none, some, List, [], ◌∷◌, Dict, get_elem?, set}
use axiler_fin.Base.Float.{Float64}
use axiler_fin.Models.{Account, TransferRequest}
use axiler_fin.Transfer.{Verdict, refuse, proceed, decide, execute}

-- How far a request has come: not checked yet, checked and let through, or answered.
pub data Phase : Type 0 where
  arrived approved finished : Phase

pub record Task (F : Type 0) : Type 0 where
  pub tenant : String
  pub req : TransferRequest F
  pub phase : Phase

pub record System (F : Type 0) : Type 0 where
  pub accounts : Dict (Account F)
  pub tasks : List (Task F)

abbrev pub to_phase : Verdict → Phase
to_phase proceed = approved
to_phase (refuse code message counted) = finished

module _ (fl : Float64) where
  open fl use {F}

  -- The next step of the task at `i`.
  abbrev pub advance : ℕ → Task F → Phase → System F → System F
  advance i t arrived s = record s {
    tasks = set s.tasks i (record t { phase = to_phase (decide fl s.accounts t.tenant t.req) });
  }
  advance i t approved s = record s {
    accounts = execute fl t.req s.accounts;
    tasks = set s.tasks i (record t { phase = finished });
  }
  advance i t finished s = s

  unfoldable pub step : ℕ → System F → System F
  step i s = elim (get_elem? s.tasks i) [ none ↦ s | some t ↦ advance i t t.phase s ]

  -- An interleaving is the list of the tasks whose turn it is.
  unfoldable pub run : List ℕ → System F → System F
  unfolding step
  run [] s = s
  run (i ∷ turns) s = run turns (step i s)
