-- ===== src/Transfer/Race/Overdraft.antt =====
-- Two transfers from one account, each covered by its balance and the two together not.
use axiler_fin.Base.{
  String, ◌≡◌, ◌≢◌, inl, inr, refl, sym, ◌∙◌, some, [], ◌∷◌, Dict, lookup, arith, Bool-cases, ◌=ˢ◌,
  eq_iff, ne→=ˢ, =ˢ_refl, true, false,
}
use axiler_fin.Base.Float.{Float64, Ieee, zero_f}
use axiler_fin.Models.{Account, TransferRequest}
use axiler_fin.Transfer.{decide, execute, refuse, debit, credit}
use axiler_fin.Transfer.Effects.{Approved, Approved-decide, lookup-execute}
use axiler_fin.Transfer.Race.{System, arrived, run}

module _ (fl : Float64) (accounts : Dict (Account fl.F)) (tenant : String)
    (r1 r2 : TransferRequest fl.F) where
  open fl use {F, sub, lt}

  abbrev pub both : System F
  both = record {
    accounts = accounts;
    tasks =
        record { tenant = tenant; req = r1; phase = arrived }
        ∷ record { tenant = tenant; req = r2; phase = arrived }
        ∷ [];
  }

  -- Both requests are valid on the accounts as they are, and take from one account.
  pub record Rivals : Type 0 where
    pub first : Approved fl accounts tenant r1
    pub second : Approved fl accounts tenant r2
    pub source : r1.from_account ≡ r2.from_account
    pub apart1 : r1.to_account ≢ r1.from_account
    pub apart2 : r2.to_account ≢ r2.from_account
    pub short : lt (sub first.from.balance r1.amount) r2.amount ≡ true

  module _ (v : Rivals) where
    open v use {first, second, source}

    debited_once :
        lookup r1.from_account (execute fl r1 accounts) ≡ some (debit fl r1.amount first.from)
    debited_once =
        rw
          (lookup-execute, =ˢ_refl, ne→=ˢ r1.to_account r1.from_account v.apart1, first.from_stored)
          refl

    debited_twice :
        lookup r1.from_account (execute fl r2 (execute fl r1 accounts))
        ≡ some (debit fl r2.amount (debit fl r1.amount first.from))
    debited_twice =
        lookup-execute fl r2 (execute fl r1 accounts) r1.from_account
        ∙ rw
            (
              ne→=ˢ r2.to_account r1.from_account (λ e. v.apart2 (e ∙ source)),
              debited_once,
              (eq_iff r2.from_account r1.from_account).1 (sym source),
            )
            refl

    not_source : (r1.from_account =ˢ r2.to_account) ≡ false
    not_source = ne→=ˢ r1.from_account r2.to_account (λ e. v.apart2 (sym e ∙ source))

    receiver_found :
        (to : Account F) × (lookup r2.to_account (execute fl r1 accounts) ≡ some to)
        × (to.tenant_id ≡ tenant)
    receiver_found = elim (Bool-cases (r1.to_account =ˢ r2.to_account)) [
      | inl same ↦ (
        credit fl r1.amount second.to,
        rw (lookup-execute, not_source, same, second.to_stored) refl,
        second.to_own,
      )
      | inr other ↦
          (second.to, rw (lookup-execute, not_source, other) second.to_stored, second.to_own)
    ]

    second_refused :
        decide fl (execute fl r1 accounts) tenant r2
        ≡ refuse 402 "insufficient balance" "insufficient_balance"
    unfolding decide
    second_refused =
        let (to, found, own) = receiver_found in
        let from_found : lookup r2.from_account (execute fl r1 accounts)
            ≡ some (debit fl r1.amount first.from) =
          rw (← source) debited_once in
        rw (from_found, found)
          (ground (
            arith,
            eq_iff first.from.tenant_id tenant,
            eq_iff to.tenant_id tenant,
            first.from_own,
            second.positive,
            v.short,
          ))

    interleaved :
        (run fl (0 ∷ 1 ∷ 0 ∷ 1 ∷ []) both).accounts ≡ execute fl r2 (execute fl r1 accounts)
    unfolding run
    interleaved =
        rw (
          Approved-decide fl accounts tenant r1 first,
          Approved-decide fl accounts tenant r2 second,
        )

    serial : (run fl (0 ∷ 0 ∷ 1 ∷ 1 ∷ []) both).accounts ≡ execute fl r1 accounts
    unfolding run
    serial = rw (Approved-decide fl accounts tenant r1 first, second_refused)

-- The checks of two requests may both come before the writes. In IEEE arithmetic, from one account that
-- covers each of two amounts but not both, and that is neither request's receiver, both are then taken,
-- and the balance falls below zero; served one after the other, only the first amount is taken.
pub race_overdraws :
    (fl : Float64) (laws : Ieee fl) (accounts : Dict (Account fl.F)) (tenant : String)
    (r1 r2 : TransferRequest fl.F) (v : Rivals fl accounts tenant r1 r2)
    → let s = both fl accounts tenant r1 r2 in
      let once = debit fl r1.amount v.first.from in
      let twice = debit fl r2.amount once in
      (lookup r1.from_account (run fl (0 ∷ 1 ∷ 0 ∷ 1 ∷ []) s).accounts ≡ some twice)
      × (fl.lt twice.balance (zero_f fl) ≡ true)
      × (lookup r1.from_account (run fl (0 ∷ 0 ∷ 1 ∷ 1 ∷ []) s).accounts ≡ some once)
race_overdraws fl laws accounts tenant r1 r2 v = (
  rw (interleaved fl accounts tenant r1 r2 v) (debited_twice fl accounts tenant r1 r2 v),
  laws.sub-neg (fl.sub v.first.from.balance r1.amount) r2.amount v.short,
  rw (serial fl accounts tenant r1 r2 v) (debited_once fl accounts tenant r1 r2 v),
)
