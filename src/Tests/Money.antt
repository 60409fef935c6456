-- ===== src/Tests/Money.antt =====
-- Transfers at concrete inputs, in an arithmetic of fixed-point numbers.
use axiler_fin.Base.{
  true, Option, some, [], ◌∷◌, ◌≡◌, ◌⊎◌, refl, lookup, ap, sym, arith, none, modify,
}
use axiler_fin.Base.Int.{◌+ℤ◌, ◌-ℤ◌, int_laws}
use axiler_fin.Base.Float.{fixed_point, fixed_point-Ieee, zero_f}
use axiler_fin.Models.{TransferRequest}
use axiler_fin.Http.{Request, Body}
use axiler_fin.Transfer.{TransferTimes, execute, debit, handle_transfer, decide}
use axiler_fin.Transfer.Effects.{Approved, Done, Rejected, handle_transfer_atomic}
use axiler_fin.Context.{Context, new_context_with_request, from_context}
use axiler_fin.Transfer.Conservation.{ExactInts, SumsTo, handle_transfer-SumsTo}
use axiler_fin.Transfer.Balance.{AllNonneg}
use axiler_fin.Transfer.Race.{run}
use axiler_fin.Transfer.Race.Overdraft.{both, Rivals, race_overdraws}
use axiler_fin.Transfer.Race.Isolation.{run_isolated}
use axiler_fin.Tests.Fixtures.{Amount, money, account, accounts, post, with_token, apart}

abbrev times : TransferTimes
times = record { id_at = 1; created_at = 2 }

abbrev sixty : TransferRequest Amount
sixty = record { from_account = "a1"; to_account = "a2"; amount = money 60; description = "" }

abbrev decode : Body → Option (TransferRequest Amount)
decode body = some sixty

abbrev call : Request
call = post "/api/v1/transfer" with_token []

-- The context of a request with a token of alpha.
abbrev context : Context
context =
    new_context_with_request
      (record {
        tenant_id = "alpha";
        user_id = "alpha_user";
        request_id = "req_1";
        trace_id = "trace_1";
        client_cert = "";
        timestamp = 100;
        release_ver = "1.0.0";
      })
      []

handle_transfer_atomic_example :
    Done fixed_point decode times context call accounts
    ⊎ Rejected fixed_point decode times context call accounts
handle_transfer_atomic_example =
    handle_transfer_atomic fixed_point decode times context call accounts

all_nonneg : AllNonneg fixed_point accounts
unfolding fixed_point
all_nonneg = (refl, (refl, (refl, tt)))

sixty-Approved : Approved fixed_point accounts "alpha" sixty
unfolding lookup fixed_point
sixty-Approved = record {
  from = account "a1" "alpha" 100;
  to = account "a2" "alpha" 20;
  from_stored = refl;
  to_stored = refl;
  from_own = refl;
  to_own = refl;
  positive = refl;
  covered = refl;
}

fixed_point-ExactInts : ExactInts fixed_point
unfolding fixed_point
fixed_point-ExactInts = record {
  sum = λ m n h. omega int_laws;
  difference = λ m n h. omega int_laws;
}

-- A hundred, twenty and five hundred.
accounts-SumsTo : SumsTo fixed_point accounts 620
accounts-SumsTo = (100, 520, refl, refl, (20, 500, refl, refl, (500, 0, refl, refl, refl)))

-- The call moves sixty.
sixty_moved :
    let after = (handle_transfer fixed_point decode times context call accounts).1 in
    (lookup "a1" after ≡ some (account "a1" "alpha" 40))
    × (lookup "a2" after ≡ some (account "a2" "alpha" 80))
unfolding handle_transfer lookup decide from_context new_context_with_request fixed_point execute
    modify ◌-ℤ◌ ◌+ℤ◌
sixty_moved = (refl, refl)

handle_transfer-SumsTo_example :
    SumsTo fixed_point (handle_transfer fixed_point decode times context call accounts).1 620
handle_transfer-SumsTo_example =
    handle_transfer-SumsTo fixed_point fixed_point-Ieee fixed_point-ExactInts decode times context
      call accounts 620 60 (omega arith) (omega arith)
      (λ req e. ap (λ o. elim o [ none ↦ money 60 | some q ↦ q.amount ]) (sym e)) accounts-SumsTo

-- Two transfers of sixty from a balance of a hundred.
rivals : Rivals fixed_point accounts "alpha" sixty sixty
unfolding fixed_point ◌-ℤ◌ sixty-Approved
rivals = record {
  first = sixty-Approved;
  second = sixty-Approved;
  source = refl;
  apart1 = λ e. apart "a2" "a1" refl e;
  apart2 = λ e. apart "a2" "a1" refl e;
  short = refl;
}

race_overdraws_example :
    let s = both fixed_point accounts "alpha" sixty sixty in
    let once = debit fixed_point (money 60) rivals.first.from in
    let twice = debit fixed_point (money 60) once in
    (lookup "a1" (run fixed_point (0 ∷ 1 ∷ 0 ∷ 1 ∷ []) s).accounts ≡ some twice)
    × (fixed_point.lt twice.balance (zero_f fixed_point) ≡ true)
    × (lookup "a1" (run fixed_point (0 ∷ 0 ∷ 1 ∷ 1 ∷ []) s).accounts ≡ some once)
race_overdraws_example =
    race_overdraws fixed_point fixed_point-Ieee accounts "alpha" sixty sixty rivals

b1_stored : lookup "b1" accounts ≡ some (account "b1" "beta" 500)
unfolding lookup
b1_stored = refl

-- A system of two tasks of the tenant alpha, run in turn.
run_isolated_example :
    lookup "b1"
      (run fixed_point
        (0 ∷ 1 ∷ 1 ∷ 0 ∷ [])
        (both fixed_point accounts "alpha" sixty sixty)).accounts
    ≡ some (account "b1" "beta" 500)
run_isolated_example =
    run_isolated fixed_point "beta" "b1" (account "b1" "beta" 500) (0 ∷ 1 ∷ 1 ∷ 0 ∷ [])
      (both fixed_point accounts "alpha" sixty sixty) refl b1_stored
      ((apart "alpha" "beta" refl, refl), ((apart "alpha" "beta" refl, refl), tt))
