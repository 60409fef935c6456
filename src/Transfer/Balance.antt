-- ===== src/Transfer/Balance.antt =====
-- The balances under `handleTransfer`: none falls below zero, and the transfer moves the amount from
-- one account to the other.
use axiler_fin.Base.{
  String, ◌≡◌, inl, inr, refl, sym, subst, Option, some, [], ◌∷◌, Dict, lookup, modify,
  lookup-modify, arith, Bool-cases, ◌=ˢ◌, eq_iff, false, All,
}
use axiler_fin.Base.Float.{Float64, Ieee, zero_f}
use axiler_fin.Models.{Account, TransferRequest}
use axiler_fin.Http.{Body, Request}
use axiler_fin.Context.{Context}
use axiler_fin.Transfer.{TransferTimes, execute, debit, credit, handle_transfer}
use axiler_fin.Transfer.Effects.{Approved, handle_transfer_atomic}

-- A property of every account survives a write after which it holds of the account written.
All-modify :
    {V : Type 0} (P : V → Type 0) (k : String) (f : V → V) (m : Dict V) {v : V}
    → lookup k m ≡ some v
    → P (f v)
    → All (λ e. P e.1) m
    → All (λ e. P e.1) (modify k f m)
unfolding lookup modify
All-modify P k f [] e p h = tt
All-modify P k f ((j, w) ∷ m) {v} e p h = elim (Bool-cases (j =ˢ k)) [
  | inl same ↦ let found : w ≡ v = ground arith in rw same (subst (λ x. P (f x)) (sym found) p, h.1)
  | inr other ↦ rw other (h.0, All-modify P k f m (ground arith) p h.1)
]

All-lookup :
    {V : Type 0} (P : V → Type 0) (k : String) (m : Dict V) {v : V}
    → lookup k m ≡ some v
    → All (λ e. P e.1) m
    → P v
unfolding lookup
All-lookup P k [] e h = absurd (ground arith)
All-lookup P k ((j, w) ∷ m) {v} e h = elim (Bool-cases (j =ˢ k)) [
  | inl same ↦ let found : w ≡ v = ground arith in subst P found h.0
  | inr other ↦ All-lookup P k m (ground arith) h.1
]

module _ (fl : Float64) where
  open fl use {F, sub, add, lt, le}

  -- The balance is not below zero.
  abbrev pub Nonneg : Account F → Type 0
  Nonneg acc = lt acc.balance (zero_f fl) ≡ false

  abbrev pub AllNonneg : Dict (Account F) → Type 0
  AllNonneg accounts = All (λ e. Nonneg e.1) accounts

  -- After the debit, the account to be credited is found, and is not below zero.
  credited :
      {accounts : Dict (Account F)} {tenant : String} {req : TransferRequest F}
      → Ieee fl
      → (a : Approved fl accounts tenant req) → AllNonneg accounts
      → (to : Account F) × (lookup req.to_account
            (modify req.from_account (debit fl req.amount) accounts)
          ≡ some to)
        × Nonneg to
  credited {accounts} {req} laws a h = elim (Bool-cases (req.from_account =ˢ req.to_account)) [
    | inl same ↦
        let one : a.from ≡ a.to =
          cc (a.from_stored, a.to_stored, (eq_iff req.from_account req.to_account).0 same) in
        (
          debit fl req.amount a.to,
          rw (lookup-modify, same, a.to_stored) refl,
          laws.sub-nonneg a.to.balance req.amount
              (subst (λ x. lt x.balance req.amount ≡ false) one a.covered),
        )
    | inr other ↦ (
      a.to,
      rw (lookup-modify, other) a.to_stored,
      All-lookup Nonneg req.to_account accounts a.to_stored h,
    )
  ]

  execute-nonneg :
      {accounts : Dict (Account F)} {tenant : String} {req : TransferRequest F}
      → Ieee fl
      → Approved fl accounts tenant req
      → AllNonneg accounts
      → AllNonneg (execute fl req accounts)
  unfolding execute
  execute-nonneg {accounts} {req} laws a h =
      let (to, found, n) = credited laws a h in
      All-modify Nonneg req.to_account (credit fl req.amount)
        (modify req.from_account (debit fl req.amount) accounts) found
        (laws.add-nonneg to.balance req.amount n (laws.nonneg_of_pos req.amount a.positive))
        (All-modify Nonneg req.from_account (debit fl req.amount) accounts a.from_stored
          (laws.sub-nonneg a.from.balance req.amount a.covered) h)

  -- In IEEE arithmetic, where requests are served one at a time, no balance falls below zero: if none
  -- is, none is after a call of the handler, whatever the request.
  pub handle_transfer-AllNonneg :
      (laws : Ieee fl) (decode : Body → Option (TransferRequest F)) (at : TransferTimes)
      (ctx : Context) (r : Request) (accounts : Dict (Account F))
      → AllNonneg accounts
      → AllNonneg (handle_transfer fl decode at ctx r accounts).1
  handle_transfer-AllNonneg laws decode at ctx r accounts h =
      elim (handle_transfer_atomic fl decode at ctx r accounts) [
        | inl d ↦ rw d.result (execute-nonneg laws d.approved h)
        | inr q ↦ rw q.kept h
      ]
