-- ===== src/Transfer/Effects.antt =====
-- What one call of `handleTransfer` does: all or nothing, on the tenant's own accounts, by the amount.
use mathlib.Core.Option
use axiler_fin.Base.{
  ℕ, String, ◌≡◌, ◌≢◌, ◌⊎◌, inl, inr, refl, Option, none, some, Dict, lookup, lookup-modify, arith,
  Option-cases, Bool-cases, ◌=ˢ◌, eq_iff, true, false, if◌then◌else◌, =ˢ_refl, ne→=ˢ, sym, ◌+ˢ◌,
  decimal,
}
use axiler_fin.Base.Float.{Float64, zero_f}
use axiler_fin.Models.{Account, TransferRequest}
use axiler_fin.Http.{Body, Request, transfer}
use axiler_fin.Context.{Context, from_context}
use axiler_fin.Transfer.{
  Verdict, refuse, proceed, TransferTimes, check, decide, execute, completed, debit, credit,
  handle_transfer,
}

pub Verdict-cases :
    (v : Verdict)
    → (v ≡ proceed)
      ⊎ ((code : ℕ) × (message : String) × (counted : String) × (v ≡ refuse code message counted))
Verdict-cases proceed = inl refl
Verdict-cases (refuse code message counted) = inr (code, message, counted, refl)

module _ (fl : Float64) where
  open fl use {F, sub, add, lt, le}

  -- What holds where the checks let a transfer through.
  pub record Approved (accounts : Dict (Account F)) (tenant : String) (req : TransferRequest F)
      : Type 0 where
    pub from : Account F
    pub to : Account F
    pub from_stored : lookup req.from_account accounts ≡ some from
    pub to_stored : lookup req.to_account accounts ≡ some to
    pub from_own : from.tenant_id ≡ tenant
    pub to_own : to.tenant_id ≡ tenant
    pub positive : le req.amount (zero_f fl) ≡ false
    pub covered : lt from.balance req.amount ≡ false

  check-Approved :
      (accounts : Dict (Account F)) (tenant : String) (req : TransferRequest F)
      (from to : Account F)
      → lookup req.from_account accounts ≡ some from
      → lookup req.to_account accounts ≡ some to
      → check fl tenant req.amount from to ≡ proceed
      → Approved accounts tenant req
  check-Approved accounts tenant req from to ef et h = record {
    from = from;
    to = to;
    from_stored = ef;
    to_stored = et;
    from_own = ground (arith, eq_iff from.tenant_id tenant);
    to_own = ground (arith, eq_iff to.tenant_id tenant);
    positive = ground arith;
    covered = ground arith;
  }

  pub decide-Approved :
      (accounts : Dict (Account F)) (tenant : String) (req : TransferRequest F)
      → decide fl accounts tenant req ≡ proceed
      → Approved accounts tenant req
  unfolding decide
  decide-Approved accounts tenant req h = elim (Option-cases (lookup req.from_account accounts)) [
    | inl missing ↦ absurd (ground arith)
    | inr (from, ef) ↦ elim (Option-cases (lookup req.to_account accounts)) [
      | inl missing ↦ absurd (ground arith)
      | inr (to, et) ↦ check-Approved accounts tenant req from to ef et (ground arith)
    ]
  ]

  -- The checks let through every request that they should.
  pub Approved-decide :
      (accounts : Dict (Account F)) (tenant : String) (req : TransferRequest F)
      → Approved accounts tenant req
      → decide fl accounts tenant req ≡ proceed
  unfolding decide
  Approved-decide accounts tenant req a =
      rw (a.from_stored, a.to_stored)
        (ground (arith, a, eq_iff a.from.tenant_id tenant, eq_iff a.to.tenant_id tenant))

  -- A refusal has one of four statuses.
  decide-refuse :
      (accounts : Dict (Account F)) (tenant : String) (req : TransferRequest F) (code : ℕ)
      (message counted : String)
      → decide fl accounts tenant req ≡ refuse code message counted
      → code ≢ 200
  unfolding decide
  decide-refuse accounts tenant req code message counted h =
      elim (Option-cases (lookup req.from_account accounts)) [
        | inl missing ↦ ground arith
        | inr (from, ef) ↦ elim (Option-cases (lookup req.to_account accounts)) [
          | inl missing ↦ ground arith
          | inr (to, et) ↦ ground arith
        ]
      ]

  -- The account under an identifier after the two writes: the second write sees the first.
  pub lookup-execute :
      (req : TransferRequest F) (accounts : Dict (Account F)) (id : String)
      → let debited : Option (Account F) =
          if req.from_account =ˢ id
          then Option.map (debit fl req.amount) (lookup id accounts)
          else lookup id accounts in
        lookup id (execute fl req accounts)
        ≡ (if req.to_account =ˢ id then Option.map (credit fl req.amount) debited else debited)
  unfolding execute
  lookup-execute req accounts id = simp lookup-modify

  module _ {accounts : Dict (Account F)} {tenant : String} {req : TransferRequest F}
      (a : Approved accounts tenant req) where
    pub debited_from :
        req.from_account ≢ req.to_account
        → lookup req.from_account (execute fl req accounts)
          ≡ some (record (a.from) { balance = sub a.from.balance req.amount })
    debited_from ne =
        rw
          (
            lookup-execute,
            =ˢ_refl,
            ne→=ˢ req.to_account req.from_account (λ e. ne (sym e)),
            a.from_stored,
          )
          refl

    pub credited_to :
        req.from_account ≢ req.to_account
        → lookup req.to_account (execute fl req accounts)
          ≡ some (record (a.to) { balance = add a.to.balance req.amount })
    credited_to ne =
        rw (lookup-execute, =ˢ_refl, ne→=ˢ req.from_account req.to_account ne, a.to_stored) refl

    -- Where both names are one account, the second write sees the first.
    pub written_twice :
        req.from_account ≡ req.to_account
        → lookup req.from_account (execute fl req accounts)
          ≡ some (record (a.from) { balance = add (sub a.from.balance req.amount) req.amount })
    written_twice e = rw (lookup-execute, ← e, =ˢ_refl, a.from_stored) refl

    pub untouched :
        (id : String)
        → id ≢ req.from_account
        → id ≢ req.to_account
        → lookup id (execute fl req accounts) ≡ lookup id accounts
    untouched id nf nt =
        rw
          (
            lookup-execute,
            ne→=ˢ req.from_account id (λ e. nf (sym e)),
            ne→=ˢ req.to_account id (λ e. nt (sym e)),
          )
          refl

  module _ (decode : Body → Option (TransferRequest F)) (at : TransferTimes) (ctx : Context)
      (r : Request) (accounts : Dict (Account F)) where
    -- The transfer was carried out: the request is a valid one of the tenant of the context, its
    -- receipt is the response, and the accounts are written.
    pub record Done : Type 0 where
      pub req : TransferRequest F
      pub method : r.method ≡ "POST"
      pub decoded : decode r.body ≡ some req
      pub approved : Approved accounts (from_context ctx).tenant_id req
      pub result :
          handle_transfer fl decode at ctx r accounts
          ≡ (completed fl (from_context ctx).tenant_id at req, execute fl req accounts)
      pub status : (handle_transfer fl decode at ctx r accounts).0.response.status ≡ 200
      pub receipt :
          (handle_transfer fl decode at ctx r accounts).0.response.payload
          ≡ transfer (record {
            transfer_id = "txn_" +ˢ decimal at.id_at;
            status = "completed";
            from_account = req.from_account;
            to_account = req.to_account;
            amount = req.amount;
            created_at = at.created_at;
            message = "Transfer successful";
          })
      pub sender :
          req.from_account ≢ req.to_account
          → lookup req.from_account (handle_transfer fl decode at ctx r accounts).1
            ≡ some (record (approved.from) { balance = sub approved.from.balance req.amount })
      pub receiver :
          req.from_account ≢ req.to_account
          → lookup req.to_account (handle_transfer fl decode at ctx r accounts).1
            ≡ some (record (approved.to) { balance = add approved.to.balance req.amount })
      pub self :
          req.from_account ≡ req.to_account
          → lookup req.from_account (handle_transfer fl decode at ctx r accounts).1
            ≡ some (record (approved.from) {
              balance = add (sub approved.from.balance req.amount) req.amount;
            })
      pub others :
          (id : String)
          → id ≢ req.from_account
          → id ≢ req.to_account
          → lookup id (handle_transfer fl decode at ctx r accounts).1 ≡ lookup id accounts

    -- It was not, and no account was touched. There was no valid request.
    pub record Rejected : Type 0 where
      pub unfit :
          (req : TransferRequest F)
          → r.method ≡ "POST"
          → decode r.body ≡ some req
          → ¬ Approved accounts (from_context ctx).tenant_id req
      pub kept : (handle_transfer fl decode at ctx r accounts).1 ≡ accounts
      pub status : (handle_transfer fl decode at ctx r accounts).0.response.status ≢ 200

    refused_method : (r.method =ˢ "POST") ≡ false → Rejected
    unfolding handle_transfer
    refused_method h = record {
      unfit = λ req m e. absurd (ground (arith, eq_iff r.method "POST"));
      kept = ground arith;
      status = ground arith;
    }

    refused_body : decode r.body ≡ none → Rejected
    unfolding handle_transfer
    refused_body h = record {
      unfit = λ req m e. cc (h, e);
      kept = ground arith;
      status = ground arith;
    }

    module _ (req : TransferRequest F) (m : (r.method =ˢ "POST") ≡ true)
        (e : decode r.body ≡ some req) where
      refused_check :
          (code : ℕ) (message counted : String)
          → decide fl accounts (from_context ctx).tenant_id req ≡ refuse code message counted
          → Rejected
      unfolding handle_transfer
      refused_check code message counted h = record {
        unfit = λ req' _ e' a. cc (Approved-decide accounts _ req' a, e, e', h);
        kept = rw (m, e, h) refl;
        status = rw (m, e, h) (decide-refuse accounts _ req code message counted h);
      }

      carried_out : decide fl accounts (from_context ctx).tenant_id req ≡ proceed → Done
      unfolding handle_transfer
      carried_out h =
          let a = decide-Approved accounts (from_context ctx).tenant_id req h in
          record {
            req = req;
            method = (eq_iff _ _).0 m;
            decoded = e;
            approved = a;
            result = rw (m, e, h) refl;
            status = rw (m, e, h) refl;
            receipt = rw (m, e, h) refl;
            sender = rw (m, e, h) (debited_from a);
            receiver = rw (m, e, h) (credited_to a);
            self = rw (m, e, h) (written_twice a);
            others = rw (m, e, h) (untouched a);
          }

    -- A call carries out the transfer, or leaves every account as it was and does not answer 200. It
    -- carries out exactly the requests that are a POST with a body that decodes, whose two accounts
    -- exist and belong to the tenant of the context, with an amount above zero that the first account
    -- covers; the answer is then 200 with the receipt, and the accounts are as they were but that the
    -- amount is subtracted from the first's balance and added to the second's, which where both are
    -- one account is the balance so reduced.
    pub handle_transfer_atomic : Done ⊎ Rejected
    handle_transfer_atomic = elim (Bool-cases (r.method =ˢ "POST")) [
      | inr wrong ↦ inr (refused_method wrong)
      | inl m ↦ elim (Option-cases (decode r.body)) [
        | inl bad ↦ inr (refused_body bad)
        | inr (req, e) ↦
            elim (Verdict-cases (decide fl accounts (from_context ctx).tenant_id req)) [
              | inl h ↦ inl (carried_out req m e h)
              | inr (code, message, counted, h) ↦ inr (refused_check req m e code message counted h)
            ]
      ]
    ]
