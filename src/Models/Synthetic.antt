-- ===== src/Models/Synthetic.antt =====
-- pkg/models/data.go and `NewSyntheticDatabase`: the random accounts with which a service starts. The
-- random number generator is a parameter.
pub mod Ids
pub mod WellFormed
use axiler_fin.Base.{
  ℕ, zero, suc, ◌+◌, ◌-◌, ◌*◌, ◌<◌, String, Option, none, some, List, [], ◌∷◌, Dict, insert,
  lookup_or, length, get_elem?, ◌+ˢ◌,
}
use axiler_fin.Base.Int.{pos}
use axiler_fin.Base.Decimal.{padded}
use axiler_fin.Base.Float.{Float64}
use axiler_fin.Models.{Time, Account, SyntheticDatabase}

-- A `*rand.Rand` with its method `Intn`.
pub record Rng : Type 1 where
  pub Source : Type 0
  pub intn : ℕ → Source → ℕ × Source

-- `Intn(n)` returns a number in [0, n); it panics where n is 0.
pub record RngLaws (rng : Rng) : Type 0 where
  pub intn-lt : (n : ℕ) (s : rng.Source) → 0 < n → (rng.intn n s).0 < n

abbrev pub tenants : List String
tenants = "alpha" ∷ "beta" ∷ "gamma" ∷ []

abbrev pub owners : Dict (List String)
owners =
    (
      "alpha",
      "Alice Savings" ∷ "Alpha Trading" ∷ "Alpha Holdings" ∷ "Alice Investments" ∷ "Alpha Finance"
          ∷ "Alpha Retail" ∷ "Alpha Technologies" ∷ "Alpha Partners" ∷ [],
    )
    ∷ (
      "beta",
      "Bob Enterprise" ∷ "Beta Industries" ∷ "Bob Holdings" ∷ "Beta Trading" ∷ "Beta Solutions"
          ∷ "Beta Capital" ∷ "Beta Commerce" ∷ "Bob Investments" ∷ [],
    )
    ∷ (
      "gamma",
      "Gamma Ventures" ∷ "Gamma Holdings" ∷ "Gamma Technologies" ∷ "Gamma Capital"
          ∷ "Gamma Investments" ∷ "Gamma Trading" ∷ "Gamma Industries" ∷ "Gamma Partners" ∷ [],
    )
    ∷ []

abbrev pub statuses : List String
statuses = "active" ∷ "active" ∷ "active" ∷ "active" ∷ "suspended" ∷ "closed" ∷ []

abbrev pub currencies : List String
currencies = "USD" ∷ []

-- `list[i]`, at an index that `Intn` returned for the length: out of range the program would panic.
abbrev pub pick : List String → ℕ → String
pick list i = elim (get_elem? list i) [ none ↦ "" | some s ↦ s ]

-- `fmt.Sprintf("acc_%s_%03d", tenant, serial)`
unfoldable pub account_id : String → ℕ → String
account_id tenant serial = "acc_" +ˢ tenant +ˢ "_" +ˢ padded serial

-- The variables of the loop.
pub record Generation (F S : Type 0) : Type 0 where
  pub accounts : Dict (Account F)
  pub counters : Dict ℕ
  pub source : S

abbrev hour : ℕ
hour = 3_600_000_000_000

module _ (fl : Float64) (rng : Rng) where
  open fl use {F, of_int, add, div}
  open rng use {Source, intn}

  -- The account of a round: its balance of `whole` and `cents`, and its age of `hours` and one.
  abbrev pub new_account : String → ℕ → String → ℕ → ℕ → Time → ℕ → ℕ → ℕ → Account F
  new_account tenant serial owner whole cents now hours currency status = record {
    id = account_id tenant serial;
    tenant_id = tenant;
    owner = owner;
    balance = add (of_int (pos (whole + 1000))) (div (of_int (pos cents)) (of_int (pos 100)));
    currency = pick currencies currency;
    status = pick statuses status;
    created_at = now - (hours + 1) * hour;
  }

  -- The body of the loop, where `time.Now()` is `now`
  unfoldable pub round : Time → Generation F Source → Generation F Source
  round now g =
      let (i, s1) = intn (length tenants) g.source in
      let tenant = pick tenants i in
      let serial = suc (lookup_or 0 tenant g.counters) in
      let owner_list = lookup_or [] tenant owners in
      let (j, s2) = intn (length owner_list) s1 in
      let (whole, s3) = intn 499000 s2 in
      let (cents, s4) = intn 100 s3 in
      let (hours, s5) = intn (180 * 24) s4 in
      let (currency, s6) = intn (length currencies) s5 in
      let (status, s7) = intn (length statuses) s6 in
      record {
        accounts =
            insert (account_id tenant serial)
              (new_account tenant serial (pick owner_list j) whole cents now hours currency status)
              g.accounts;
        counters = insert tenant serial g.counters;
        source = s7;
      }

  -- The loop, where `clock n` is the time when n rounds are still to come
  unfoldable pub rounds : ℕ → (ℕ → Time) → Generation F Source → Generation F Source
  unfolding round
  rounds zero clock g = g
  rounds (suc n) clock g = rounds n clock (round (clock n) g)

  -- `generateAccounts`
  unfoldable pub generate_accounts : ℕ → (ℕ → Time) → Source → Dict (Account F)
  unfolding rounds
  generate_accounts count clock source =
      (rounds count clock (record {
        accounts = [];
        counters = ("alpha", 0) ∷ ("beta", 0) ∷ ("gamma", 0) ∷ [];
        source = source;
      })).accounts

  -- `NewSyntheticDatabase`
  unfoldable pub new_synthetic_database : (ℕ → Time) → Source → SyntheticDatabase F
  unfolding generate_accounts
  new_synthetic_database clock source = record {
    accounts = generate_accounts 100 clock source;
    transfers = [];
    ledger = [];
  }
