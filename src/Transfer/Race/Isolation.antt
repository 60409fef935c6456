-- ===== src/Transfer/Race/Isolation.antt =====
-- No interleaving of other tenants' transfers touches an account of a tenant.
use axiler_fin.Base.{
  ℕ, String, ◌≡◌, ◌≢◌, inl, inr, refl, some, List, [], ◌∷◌, Dict, lookup, Option-cases, ◌=ˢ◌, false,
  ne→=ˢ, All, All-get, All-set, All-mono, get_elem?,
}
use axiler_fin.Base.Float.{Float64}
use axiler_fin.Models.{Account, TransferRequest}
use axiler_fin.Transfer.{execute}
use axiler_fin.Transfer.Effects.{lookup-execute}
use axiler_fin.Transfer.Race.{System, Task, Phase, arrived, approved, finished, advance, step, run}
use axiler_fin.Transfer.Race.Within.{
  tenant_of, Within, checked-Within, Within-execute, arrived-Within, finished-Within,
}

module _ (fl : Float64) where
  open fl use {F}

  module _ (tenant : String) where
    abbrev Foreign : Dict (Account F) → Task F → Type 0
    Foreign accounts t = (t.tenant ≢ tenant) × Within fl accounts t

    Foreign-execute :
        (req : TransferRequest F) (accounts : Dict (Account F)) (t : Task F)
        → Foreign accounts t
        → Foreign (execute fl req accounts) t
    Foreign-execute req accounts t (ne, w) = (ne, Within-execute fl req accounts t w)

    module _ (id : String) (acc : Account F) (own : acc.tenant_id ≡ tenant) where
      record Untouched (s : System F) : Type 0 where
        foreign : All (Foreign s.accounts) s.tasks
        stored : lookup id s.accounts ≡ some acc

      other_account :
          (accounts : Dict (Account F)) (t : Task F) (id' : String)
          → t.tenant ≢ tenant
          → tenant_of fl id' accounts ≡ some t.tenant
          → lookup id accounts ≡ some acc
          → (id' =ˢ id) ≡ false
      other_account accounts t id' ne e stored =
          ne→=ˢ id' id (λ same. ne (cc (e, stored, same, own)))

      advance-Untouched :
          (i : ℕ) (t : Task F) (p : Phase) (s : System F)
          → t.phase ≡ p
          → Foreign s.accounts t
          → Untouched s
          → Untouched (advance fl i t p s)
      advance-Untouched i t arrived s e f u = record {
        foreign =
            All-set (Foreign s.accounts) s.tasks i _ (f.0, checked-Within fl s.accounts t)
              u.foreign;
        stored = u.stored;
      }
      advance-Untouched i t approved s e (ne, w) u = record {
        foreign =
            All-set (Foreign (execute fl t.req s.accounts)) s.tasks i _ (ne, finished-Within fl _ t)
              (All-mono (λ t'. Foreign-execute t.req s.accounts t') s.tasks u.foreign);
        stored =
            rw
              (
                lookup-execute,
                other_account s.accounts t t.req.from_account ne (w.from_own e) u.stored,
                other_account s.accounts t t.req.to_account ne (w.to_own e) u.stored,
              )
              u.stored;
      }
      advance-Untouched i t finished s e f u = u

      step-Untouched : (i : ℕ) (s : System F) → Untouched s → Untouched (step fl i s)
      unfolding step
      step-Untouched i s u = elim (Option-cases (get_elem? s.tasks i)) [
        | inl out ↦ rw (out, step) u
        | inr (t, e) ↦
            rw (e, step)
              (advance-Untouched i t t.phase s refl
                (All-get (Foreign s.accounts) s.tasks i e u.foreign) u)
      ]

      run-Untouched : (turns : List ℕ) (s : System F) → Untouched s → Untouched (run fl turns s)
      unfolding run
      run-Untouched [] s u = u
      run-Untouched (i ∷ turns) s u = run-Untouched turns (step fl i s) (step-Untouched i s u)

    arrived-Foreign :
        (accounts : Dict (Account F)) (t : Task F)
        → (t.tenant ≢ tenant) × (t.phase ≡ arrived)
        → Foreign accounts t
    arrived-Foreign accounts t (ne, e) = (ne, arrived-Within fl accounts t e)

  -- Whatever the interleaving, a system whose requests are all of other tenants and not checked yet
  -- leaves an account of this tenant, stored under some identifier, exactly as it was.
  pub run_isolated :
      (tenant id : String) (acc : Account F) (turns : List ℕ) (s : System F)
      → acc.tenant_id ≡ tenant
      → lookup id s.accounts ≡ some acc
      → All (λ t. (t.tenant ≢ tenant) × (t.phase ≡ arrived)) s.tasks
      → lookup id (run fl turns s).accounts ≡ some acc
  run_isolated tenant id acc turns s own stored new =
      (run-Untouched tenant id acc own turns s (record {
        foreign = All-mono (arrived-Foreign tenant s.accounts) s.tasks new;
        stored = stored;
      })).stored
