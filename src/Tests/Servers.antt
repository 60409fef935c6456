-- ===== src/Tests/Servers.antt =====
-- The transfer service and the synthetic accounts at concrete inputs.
use axiler_fin.Base.{ℕ, String, false, Option, some, [], ◌∷◌, ◌≡◌, ◌⊎◌, refl, ok}
use axiler_fin.Base.Float.{fixed_point, fixed_point-Ieee}
use axiler_fin.Models.{Time, TransferRequest}
use axiler_fin.Models.Synthetic.{generate_accounts, new_synthetic_database}
use axiler_fin.Models.Synthetic.WellFormed.{WellFormed, generate_accounts-WellFormed}
use axiler_fin.Http.{Body}
use axiler_fin.Auth.{new}
use axiler_fin.Service.{Readings}
use axiler_fin.Transfer.Server as TransferServer
use axiler_fin.Transfer.Balance.{AllNonneg}
use axiler_fin.Transfer.Server.Lifetime.{identities, serve_series, lifetime}
use axiler_fin.Transfer.Server.Guard.{Transferred, Switched, serve_guarded}
use axiler_fin.Tests.Fixtures.{one_token, manager, Amount, money, post, with_token}
use axiler_fin.Tests.Outside.{plain_chi, plain_chi-laws, zeros, zeros-laws, keys, replies}

abbrev pub clock : ℕ → Time
clock n = 1_700_000_000_000_000_000

generate_accounts-WellFormed_example :
    WellFormed fixed_point 3 (generate_accounts fixed_point zeros 3 clock tt)
generate_accounts-WellFormed_example =
    generate_accounts-WellFormed fixed_point zeros zeros-laws fixed_point-Ieee 3 clock tt

abbrev pub later : Time
later = 100_000_000_000

abbrev pub now : Readings
now = record { validate_at = later; request_at = later; trace_at = later; stamp_at = later }

abbrev pub transfer_server : TransferServer.Server one_token Amount
transfer_server = record {
  token_manager = manager;
  db = new_synthetic_database fixed_point zeros clock tt;
  failure_mode = false;
}

pub transfer_started :
    TransferServer.start fixed_point one_token keys zeros clock tt ≡ ok transfer_server
unfolding TransferServer.start new
transfer_started = refl

abbrev pub sixty : TransferRequest Amount
sixty = record {
  from_account = "acc_alpha_001";
  to_account = "acc_alpha_002";
  amount = money 60;
  description = "";
}

abbrev pub decode_transfer : Body → Option (TransferRequest Amount)
decode_transfer body = some sixty

abbrev pub transfer_call : String → TransferServer.Call Amount
transfer_call path = record {
  health_at = later;
  now = now;
  at = record { id_at = later; created_at = later };
  replies = replies;
  request = post path with_token [];
}

lifetime_example :
    let s' =
      serve_series fixed_point decode_transfer one_token plain_chi
        (transfer_call "/api/v1/transfer" ∷ (transfer_call "/admin/simulate-failure" ∷ []))
        transfer_server in
    AllNonneg fixed_point s'.db.accounts
    × (identities fixed_point s'.db.accounts ≡ identities fixed_point transfer_server.db.accounts)
    × (s'.token_manager ≡ manager)
lifetime_example =
    lifetime fixed_point decode_transfer one_token plain_chi fixed_point-Ieee keys zeros zeros-laws
      clock tt transfer_server
      (transfer_call "/api/v1/transfer" ∷ (transfer_call "/admin/simulate-failure" ∷ []))
      transfer_started

serve_guarded_example :
    let c = transfer_call "/api/v1/transfer" in
    ((TransferServer.serve fixed_point one_token decode_transfer plain_chi c transfer_server).1
      ≡ transfer_server)
    ⊎ (Transferred fixed_point one_token decode_transfer plain_chi c transfer_server
        ⊎ Switched fixed_point one_token decode_transfer plain_chi c transfer_server)
serve_guarded_example =
    serve_guarded fixed_point one_token decode_transfer plain_chi (transfer_call "/api/v1/transfer")
      transfer_server plain_chi-laws
