-- ===== src/Transfer/Race/Within.antt =====
-- What holds of a request between its check and its writes, whatever runs meanwhile.
use mathlib.Core.Option
use axiler_fin.Base.{String, ◌≡◌, inl, inr, ap, ◌∙◌, Option, some, Dict, lookup, arith}
use axiler_fin.Base.Float.{Float64}
use axiler_fin.Models.{Account, TransferRequest}
use axiler_fin.Transfer.{decide, execute}
use axiler_fin.Transfer.Effects.{decide-Approved, lookup-execute, Verdict-cases}
use axiler_fin.Transfer.Race.{Task, arrived, approved, finished, to_phase}

module _ (fl : Float64) where
  open fl use {F}

  abbrev pub tenant_of : String → Dict (Account F) → Option String
  tenant_of id accounts = Option.map (λ (acc : Account F). acc.tenant_id) (lookup id accounts)

  -- A transfer changes no account's tenant.
  pub tenant_of-execute :
      (req : TransferRequest F) (accounts : Dict (Account F)) (id : String)
      → tenant_of id (execute fl req accounts) ≡ tenant_of id accounts
  tenant_of-execute req accounts id = rw lookup-execute (ground arith)

  -- A task that was let through is between two accounts of its tenant.
  pub record Within (accounts : Dict (Account F)) (t : Task F) : Type 0 where
    pub from_own : t.phase ≡ approved → tenant_of t.req.from_account accounts ≡ some t.tenant
    pub to_own : t.phase ≡ approved → tenant_of t.req.to_account accounts ≡ some t.tenant

  pub checked-Within :
      (accounts : Dict (Account F)) (t : Task F)
      → Within accounts (record t { phase = to_phase (decide fl accounts t.tenant t.req) })
  checked-Within accounts t = elim (Verdict-cases (decide fl accounts t.tenant t.req)) [
    | inl h ↦
        let a = decide-Approved fl accounts t.tenant t.req h in
        record {
          from_own = λ p. rw a.from_stored (ap some a.from_own);
          to_own = λ p. rw a.to_stored (ap some a.to_own);
        }
    | inr (code, message, counted, h) ↦ record {
      from_own = λ p. absurd (ground arith);
      to_own = λ p. absurd (ground arith);
    }
  ]

  pub Within-execute :
      (req : TransferRequest F) (accounts : Dict (Account F)) (t : Task F)
      → Within accounts t
      → Within (execute fl req accounts) t
  Within-execute req accounts t w = record {
    from_own = λ p. tenant_of-execute req accounts t.req.from_account ∙ w.from_own p;
    to_own = λ p. tenant_of-execute req accounts t.req.to_account ∙ w.to_own p;
  }

  pub arrived-Within :
      (accounts : Dict (Account F)) (t : Task F) → t.phase ≡ arrived → Within accounts t
  arrived-Within accounts t e = record {
    from_own = λ p. absurd (cc (e, p));
    to_own = λ p. absurd (cc (e, p));
  }

  pub finished-Within :
      (accounts : Dict (Account F)) (t : Task F) → Within accounts (record t { phase = finished })
  finished-Within accounts t = record { from_own = λ p. absurd (cc p); to_own = λ p. absurd (cc p) }
