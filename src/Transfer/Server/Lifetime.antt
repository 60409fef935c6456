-- ===== src/Transfer/Server/Lifetime.antt =====
-- The accounts from the start of the transfer service on, with requests served one at a time.
use axiler_fin.Base.{
  ℕ, String, ◌≡◌, refl, ap, ◌∙◌, subst, Bool-cases, inl, inr, Option, Option-cases, Result-cases,
  Result, ok, err, arith, List, [], ◌∷◌, Dict, modify, All-mono, ◌=ˢ◌,
}
use axiler_fin.Base.Float.{Float64, Ieee, zero_f}
use axiler_fin.Models.{Time, Account, TransferRequest}
use axiler_fin.Models.Synthetic.{Rng, RngLaws, new_synthetic_database, generate_accounts}
use axiler_fin.Models.Synthetic.WellFormed.{generate_accounts-WellFormed}
use axiler_fin.Http.{Body, Request}
use axiler_fin.Context.{Context}
use axiler_fin.Auth.{TokenManager, Keys, new}
use axiler_fin.Auth.Interface.{Jwt}
use axiler_fin.Router.{Chi}
use axiler_fin.Service.Gate.{auth_gate}
use axiler_fin.Transfer.{TransferTimes, execute, debit, credit, handle_transfer, serve_transfer}
use axiler_fin.Transfer.Server.{
  Endpoint, metrics, health, transfer, simulate_failure, routes, Call, Server, start, answer, serve,
}
use axiler_fin.Transfer.Effects.{handle_transfer_atomic}
use axiler_fin.Transfer.Balance.{AllNonneg, handle_transfer-AllNonneg}

module _ (fl : Float64) where
  open fl use {F}

  -- The entries with their balances struck out.
  pub identities : Dict (Account F) → Dict (Account F)
  identities [] = []
  identities ((id, acc) ∷ rest) = (id, record acc { balance = zero_f fl }) ∷ identities rest

  identities-debit :
      (k : String) (amount : F) (m : Dict (Account F))
      → identities (modify k (debit fl amount) m) ≡ identities m
  unfolding identities modify
  identities-debit k amount [] = refl
  identities-debit k amount ((id, acc) ∷ rest) = elim (Bool-cases (id =ˢ k)) [
    | inl same ↦ rw same refl
    | inr other ↦ rw (other, identities-debit k amount rest) refl
  ]

  identities-credit :
      (k : String) (amount : F) (m : Dict (Account F))
      → identities (modify k (credit fl amount) m) ≡ identities m
  unfolding identities modify
  identities-credit k amount [] = refl
  identities-credit k amount ((id, acc) ∷ rest) = elim (Bool-cases (id =ˢ k)) [
    | inl same ↦ rw same refl
    | inr other ↦ rw (other, identities-credit k amount rest) refl
  ]

  identities-execute :
      (req : TransferRequest F) (m : Dict (Account F))
      → identities (execute fl req m) ≡ identities m
  unfolding execute
  identities-execute req m =
      identities-credit req.to_account req.amount (modify req.from_account (debit fl req.amount) m)
      ∙ identities-debit req.from_account req.amount m

  -- What every request keeps.
  abbrev Kept : Dict (Account F) → Dict (Account F) → Type 0
  Kept before after =
      (AllNonneg fl before → AllNonneg fl after) × (identities after ≡ identities before)

  module _ (decode : Body → Option (TransferRequest F)) (jwt : Jwt) (chi : Chi) where
    -- The server after a series of requests.
    pub serve_series : List (Call F) → Server jwt F → Server jwt F
    serve_series [] s = s
    serve_series (c ∷ calls) s = serve_series calls (serve fl jwt decode chi c s).1

    module _ (laws : Ieee fl) where
      handle_transfer-Kept :
          (at : TransferTimes) (ctx : Context) (r : Request) (accounts : Dict (Account F))
          → Kept accounts (handle_transfer fl decode at ctx r accounts).1
      handle_transfer-Kept at ctx r accounts = (
        handle_transfer-AllNonneg fl laws decode at ctx r accounts,
        elim (handle_transfer_atomic fl decode at ctx r accounts) [
          | inl d ↦ rw d.result (identities-execute d.req accounts)
          | inr q ↦ rw q.kept refl
        ],
      )

      serve_transfer-Kept :
          (tm : TokenManager jwt) (c : Call F) (accounts : Dict (Account F))
          → Kept accounts (serve_transfer fl decode jwt tm c.now c.at c.request accounts).1
      unfolding serve_transfer
      serve_transfer-Kept tm c accounts =
          elim (auth_gate jwt tm c.now (handle_transfer fl decode c.at) [] c.request accounts) [
            | inl p ↦ rw p.result (handle_transfer-Kept c.at _ c.request accounts)
            | inr q ↦ rw q.kept (λ h. h, refl)
          ]

      answer-Kept :
          (e : Endpoint) (c : Call F) (s : Server jwt F)
          → let s' = (answer fl jwt decode e c s).1 in
            Kept s.db.accounts s'.db.accounts × (s'.token_manager ≡ s.token_manager)
      answer-Kept metrics c s = ((λ h. h, refl), refl)
      answer-Kept health c s = ((λ h. h, refl), refl)
      answer-Kept transfer c s = (serve_transfer-Kept s.token_manager c s.db.accounts, refl)
      answer-Kept simulate_failure c s = ((λ h. h, refl), refl)

      serve-Kept :
          (c : Call F) (s : Server jwt F)
          → let s' = (serve fl jwt decode chi c s).1 in
            Kept s.db.accounts s'.db.accounts × (s'.token_manager ≡ s.token_manager)
      unfolding serve
      serve-Kept c s = elim (Option-cases (chi.find routes c.request)) [
        | inl nowhere ↦ rw nowhere ((λ h. h, refl), refl)
        | inr ((e, params), found) ↦ rw found (answer-Kept e c s)
      ]

      serve_series-Kept :
          (calls : List (Call F)) (s : Server jwt F)
          → let s' = serve_series calls s in
            Kept s.db.accounts s'.db.accounts × (s'.token_manager ≡ s.token_manager)
      unfolding serve_series
      serve_series-Kept [] s = ((λ h. h, refl), refl)
      serve_series-Kept (c ∷ calls) s =
          let ((nonneg, same), manager) = serve-Kept c s in
          let ((nonneg', same'), manager') =
            serve_series-Kept calls (serve fl jwt decode chi c s).1 in
          ((λ h. nonneg' (nonneg h), same' ∙ same), manager' ∙ manager)

      abbrev accounts_of : Dict (Account F) → Result (Server jwt F) → Dict (Account F)
      accounts_of d (ok s) = s.db.accounts
      accounts_of d (err message) = d

      started-accounts :
          (keys : Keys) (rng : Rng) (clock : ℕ → Time) (source : rng.Source) (s : Server jwt F)
          → start fl jwt keys rng clock source ≡ ok s
          → generate_accounts fl rng 100 clock source ≡ s.db.accounts
      unfolding start new_synthetic_database
      started-accounts keys rng clock source s h =
          elim (Result-cases (new jwt keys.private_pem keys.public_pem)) [
            | inl (message, failed) ↦ absurd (ground arith)
            | inr (tm, made) ↦
                ap (λ o. accounts_of (generate_accounts fl rng 100 clock source) o) (rw made at h)
          ]

      -- From the start of the service, whatever accounts were drawn, and through any series of requests
      -- to any of its endpoints, served one at a time, in IEEE arithmetic: no balance is ever below
      -- zero, of every account nothing but its balance ever changes, no account is added and none is
      -- lost, and the keys stay those of the start.
      pub lifetime :
          (keys : Keys) (rng : Rng) (rules : RngLaws rng) (clock : ℕ → Time) (source : rng.Source)
          (s : Server jwt F) (calls : List (Call F))
          → start fl jwt keys rng clock source ≡ ok s
          → let s' = serve_series calls s in
            AllNonneg fl s'.db.accounts
            × (identities s'.db.accounts ≡ identities s.db.accounts)
            × (s'.token_manager ≡ s.token_manager)
      lifetime keys rng rules clock source s calls started =
          let made = (generate_accounts-WellFormed fl rng rules laws 100 clock source).made in
          let drawn = All-mono (λ e m. m.nonneg) (generate_accounts fl rng 100 clock source) made in
          let fine =
            subst (AllNonneg fl) (started-accounts keys rng clock source s started) drawn in
          let ((nonneg, same), manager) = serve_series-Kept calls s in (nonneg fine, same, manager)
