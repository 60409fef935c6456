-- ===== src/Journey/Transfer.antt =====
-- A transfer at cmd/transfer-service with the token of a login.
use axiler_fin.Base.{String, ◌≡◌, Option, some, Result, ok, err, ◌+ˢ◌, decimal}
use axiler_fin.Base.Float.{Float64}
use axiler_fin.Models.{AuthRequest, TransferRequest, TransferResponse}
use axiler_fin.Http.{Body, get_header, transfer}
use axiler_fin.Auth.{TokenManager}
use axiler_fin.Auth.Interface.{Jwt}
use axiler_fin.Router.{Chi}
use axiler_fin.Transfer.{execute}
use axiler_fin.Transfer.Effects.{Approved}
use axiler_fin.Transfer.Server.{Server, Call, transfer as transfer_endpoint, serve}
use axiler_fin.Login.Server as LoginServer
use axiler_fin.Journey.Token.{Login}

abbrev transfer_manager :
    {jwt : Jwt} {F : Type 0} → Result (Server jwt F) → Result (TokenManager jwt)
transfer_manager (ok s) = ok s.token_manager
transfer_manager (err message) = err message

-- What the transfer service tells of a transfer.
abbrev pub receipt : {F : Type 0} → TransferRequest F → Call F → TransferResponse F
receipt req c = record {
  transfer_id = "txn_" +ˢ decimal c.at.id_at;
  status = "completed";
  from_account = req.from_account;
  to_account = req.to_account;
  amount = req.amount;
  created_at = c.at.created_at;
  message = "Transfer successful";
}

-- A request with this token for a transfer that the tenant may make.
pub record Payment (fl : Float64) {jwt : Jwt} (chi : Chi)
    (decode : Body → Option (TransferRequest fl.F)) (s : Server jwt fl.F) (c : Call fl.F)
    (tenant token : String) (req : TransferRequest fl.F) : Type 0 where
  pub method : c.request.method ≡ "POST"
  pub path : chi.route_path c.request ≡ "/api/v1/transfer"
  pub bearer : get_header "Authorization" c.request ≡ "Bearer " +ˢ token
  pub decoded : decode c.request.body ≡ some req
  pub approved : Approved fl s.db.accounts tenant req

module _ (fl : Float64) (jwt : Jwt) (chi : Chi) (login_decode : Body → Option AuthRequest)
    (decode : Body → Option (TransferRequest fl.F)) where
  open fl use {F}

  -- The service after the two writes.
  abbrev pub paid : TransferRequest F → Server jwt F → Server jwt F
  paid req s = record s { db = record (s.db) { accounts = execute fl req s.db.accounts } }

  -- The response is a receipt, and the two writes are made.
  pub record Completed (c : Call F) (s : Server jwt F) (req : TransferRequest F) : Type 0 where
    pub status : (serve fl jwt decode chi c s).0.response.status ≡ 200
    pub payload : (serve fl jwt decode chi c s).0.response.payload ≡ transfer (receipt req c)
    pub writes : (serve fl jwt decode chi c s).1 ≡ paid req s
