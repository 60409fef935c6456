-- ===== src/Transfer.antt =====
-- cmd/transfer-service/main.go: the transfer handler. The lookups and checks are one part
-- (`decide`), the two writes under the lock another (`execute`), so that handlers of several requests
-- can be interleaved. JSON decoding is a parameter, `none` on an error.
pub mod Middleware
pub mod Effects
pub mod Balance
pub mod Conservation
pub mod Race
pub mod Health
pub mod Server
use axiler_fin.Base.{
  ℕ, String, Bool, true, false, Option, none, some, List, [], ◌∷◌, Dict, lookup, modify, ◌=ˢ◌, ◌+ˢ◌,
  decimal, ◌||◌, ◌&&◌, not, if◌then◌else◌,
}
use axiler_fin.Base.Int.{pos}
use axiler_fin.Base.Float.{Float64, zero_f}
use axiler_fin.Models.{Time, Account, TransferRequest, TransferResponse, SyntheticDatabase}
use axiler_fin.Metrics.{Sample, inc, observe, transfers_total, transfer_amount}
use axiler_fin.Http.{Body, Request, Response, Payload, no_payload, error, transfer}
use axiler_fin.Context.{Context, from_context}
use axiler_fin.Service.{Outcome, Handler, reply, Readings, auth_middleware}
use axiler_fin.Auth.{TokenManager}
use axiler_fin.Auth.Interface.{Jwt}

-- What the checks come to: an early return, by its status, its message and the outcome that it
-- counts, or the transfer.
pub data Verdict : Type 0 where
  refuse : ℕ → String → String → Verdict
  proceed : Verdict

-- The two readings of the clock in the last part of the handler.
pub record TransferTimes : Type 0 where
  pub id_at : Time
  pub created_at : Time

module _ (fl : Float64) where
  open fl use {F, sub, add, lt, le}

  -- The checks on two accounts that were found.
  abbrev pub check : String → F → Account F → Account F → Verdict
  check tenant amount from to =
      if not (from.tenant_id =ˢ tenant) || not (to.tenant_id =ˢ tenant)
      then refuse 403 "access denied" "unauthorized"
      else (if le amount (zero_f fl)
          then refuse 400 "invalid amount" "invalid_amount"
          else (if lt from.balance amount
              then refuse 402 "insufficient balance" "insufficient_balance"
              else proceed))

  abbrev pub check_found : String → F → Option (Account F) → Option (Account F) → Verdict
  check_found tenant amount (some from) (some to) = check tenant amount from to
  check_found tenant amount (some from) none = refuse 404 "account not found" "account_not_found"
  check_found tenant amount none to = refuse 404 "account not found" "account_not_found"

  -- The lookups under the read lock, and the checks.
  unfoldable pub decide : Dict (Account F) → String → TransferRequest F → Verdict
  decide accounts tenant req =
      check_found tenant req.amount (lookup req.from_account accounts)
        (lookup req.to_account accounts)

  abbrev pub debit : F → Account F → Account F
  debit amount acc = record acc { balance = sub acc.balance amount }

  abbrev pub credit : F → Account F → Account F
  credit amount acc = record acc { balance = add acc.balance amount }

  -- The two writes under the write lock, in their order: where both names are one account, the
  -- second write sees the first.
  unfoldable pub execute : TransferRequest F → Dict (Account F) → Dict (Account F)
  execute req accounts =
      modify req.to_account (credit req.amount)
        (modify req.from_account (debit req.amount) accounts)

  abbrev pub completed : String → TransferTimes → TransferRequest F → Outcome F
  completed tenant at req = record {
    response = record {
      status = 200;
      header = ("Content-Type", "application/json") ∷ [];
      payload = transfer (record {
        transfer_id = "txn_" +ˢ decimal at.id_at;
        status = "completed";
        from_account = req.from_account;
        to_account = req.to_account;
        amount = req.amount;
        created_at = at.created_at;
        message = "Transfer successful";
      });
    };
    samples =
        inc transfers_total (tenant ∷ "success" ∷ [])
        ∷ observe transfer_amount (tenant ∷ []) req.amount
        ∷ [];
  }

  -- The rest of the handler, by the verdict.
  abbrev pub conclude :
      String
      → TransferTimes
      → TransferRequest F
      → Dict (Account F)
      → Verdict
      → Outcome F × Dict (Account F)
  conclude tenant at req accounts (refuse code message counted) =
      (reply code (error message) (inc transfers_total (tenant ∷ counted ∷ []) ∷ []), accounts)
  conclude tenant at req accounts proceed = (completed tenant at req, execute req accounts)

  module _ (decode : Body → Option (TransferRequest F)) where
    -- `handleTransfer`, when no other request is served meanwhile, over the accounts.
    unfoldable pub handle_transfer : TransferTimes → Handler F (Dict (Account F))
    handle_transfer at ctx r accounts =
        if r.method =ˢ "POST"
        then elim (decode r.body) [
          | none ↦ (reply 400 (error "invalid request") [], accounts)
          | some req ↦
              let tenant = (from_context ctx).tenant_id in
              conclude tenant at req accounts (decide accounts tenant req)
        ]
        else (reply 405 no_payload [], accounts)

    -- The handler of `POST /api/v1/transfer`: `authMiddleware(handleTransfer)`.
    unfoldable pub serve_transfer :
        (jwt : Jwt)
        → TokenManager jwt
        → Readings
        → TransferTimes
        → Request
        → Dict (Account F)
        → Outcome F × Dict (Account F)
    serve_transfer jwt tm now at r accounts =
        auth_middleware jwt tm now (handle_transfer at) [] r accounts
