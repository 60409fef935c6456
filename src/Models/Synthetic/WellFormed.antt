-- ===== src/Models/Synthetic/WellFormed.antt =====
-- The synthetic accounts are well formed, whatever the generator draws.
use mathlib.Core.List.{Memᴰ}
use axiler_fin.Base.{
  ℕ, zero, suc, ◌+◌, ◌≤◌, ◌<◌, String, ◌≡◌, ◌≢◌, refl, ap, sym, ◌∙◌, subst, false, arith,
  Bool-cases, inl, inr, List, [], ◌∷◌, Dict, insert, lookup_or, lookup_or-insert_self,
  lookup_or-insert_ne, length, length-append, All, All-mono, has_code, ◌=ˢ◌, eq_iff,
}
use axiler_fin.Base.Distinct.{Distinct, All-snoc, Distinct-snoc, insert-missing}
use axiler_fin.Base.Float.{Float64, Ieee, zero_f}
use axiler_fin.Models.{Time, Account}
use axiler_fin.Models.Synthetic.{
  Rng, RngLaws, tenants, pick, account_id, Generation, round, rounds, generate_accounts,
}
use axiler_fin.Models.Synthetic.Ids.{id_parts, id_parts-account_id}

pick-Memᴰ : (list : List String) (i : ℕ) → i < length list → Memᴰ (pick list i) list
pick-Memᴰ [] i h = absurd (omega arith)
pick-Memᴰ (s ∷ list) zero h = Memᴰ.head refl
pick-Memᴰ (s ∷ list) (suc i) h = Memᴰ.tail (pick-Memᴰ list i (omega arith))

tenant-plain : (tenant : String) → Memᴰ tenant tenants → has_code b'_' tenant ≡ false
unfolding has_code
tenant-plain tenant (Memᴰ.head e) = rw e refl
tenant-plain tenant (Memᴰ.tail (Memᴰ.head e)) = rw e refl
tenant-plain tenant (Memᴰ.tail (Memᴰ.tail (Memᴰ.head e))) = rw e refl
tenant-plain tenant (Memᴰ.tail (Memᴰ.tail (Memᴰ.tail h))) = elim h [ ]

-- The counter of a tenant that is counted grows, and no other falls.
counter-le :
    (tenant other : String) (counters : Dict ℕ)
    → lookup_or 0 other counters
      ≤ lookup_or 0 other (insert tenant (suc (lookup_or 0 tenant counters)) counters)
counter-le tenant other counters = elim (Bool-cases (other =ˢ tenant)) [
  | inl same ↦ rw ((eq_iff other tenant).0 same, lookup_or-insert_self) (omega arith)
  | inr apart ↦
      rw
        (lookup_or-insert_ne 0 tenant other (suc (lookup_or 0 tenant counters)) counters
          (λ e. cc (apart, (eq_iff other tenant).1 e)))
        (omega arith)
]

module _ (fl : Float64) where
  open fl use {F, lt}

  -- An entry of the map as the loop makes them: the key is the account's identifier, made of its tenant
  -- and a serial number that the tenant's counter has reached, and the balance is not below zero.
  pub record Made (counters : Dict ℕ) (entry : String × Account F) : Type 0 where
    pub serial : ℕ
    pub reached : serial ≤ lookup_or 0 entry.1.tenant_id counters
    pub named : entry.0 ≡ account_id entry.1.tenant_id serial
    pub own : entry.1.id ≡ entry.0
    pub tenant : Memᴰ entry.1.tenant_id tenants
    pub nonneg : lt entry.1.balance (zero_f fl) ≡ false

  -- The accounts of `generateAccounts`, for some counters that the identifiers stay within.
  pub record WellFormed (count : ℕ) (accounts : Dict (Account F)) : Type 0 where
    pub counters : Dict ℕ
    pub made : All (Made counters) accounts
    pub distinct : Distinct accounts
    pub size : length accounts ≡ count

  Made-counted :
      (tenant : String) (counters : Dict ℕ) (entry : String × Account F)
      → Made counters entry
      → Made (insert tenant (suc (lookup_or 0 tenant counters)) counters) entry
  Made-counted tenant counters entry m = record {
    serial = m.serial;
    reached = omega (arith, m.reached, counter-le tenant entry.1.tenant_id counters);
    named = m.named;
    own = m.own;
    tenant = m.tenant;
    nonneg = m.nonneg;
  }

  -- The next identifier of a tenant is no entry's.
  Made-apart :
      (tenant : String) (counters : Dict ℕ) (entry : String × Account F)
      → Memᴰ tenant tenants
      → Made counters entry
      → entry.0 ≢ account_id tenant (suc (lookup_or 0 tenant counters))
  Made-apart tenant counters entry h m e =
      let parts =
        sym
          (id_parts-account_id entry.1.tenant_id m.serial (tenant-plain entry.1.tenant_id m.tenant))
        ∙ ap id_parts (sym m.named ∙ e)
        ∙ id_parts-account_id tenant (suc (lookup_or 0 tenant counters)) (tenant-plain tenant h) in
      let same_tenant : entry.1.tenant_id ≡ tenant = ap (λ p. p.0) parts in
      let same_serial : m.serial ≡ suc (lookup_or 0 tenant counters) = ap (λ p. p.1) parts in
      let reached : m.serial ≤ lookup_or 0 tenant counters =
        subst (λ t. m.serial ≤ lookup_or 0 t counters) same_tenant m.reached in
      omega arith

  module _ (rng : Rng) (rules : RngLaws rng) (laws : Ieee fl) where
    open rng use {Source, intn}

    -- What the loop keeps: every entry is as it should be, no two have one key, and there is one for
    -- each round.
    pub record Generated (done : ℕ) (g : Generation F Source) : Type 0 where
      pub made : All (Made g.counters) g.accounts
      pub distinct : Distinct g.accounts
      pub count : length g.accounts ≡ done

    insert-Generated :
        (done : ℕ) (g : Generation F Source) (tenant : String) (acc : Account F) (source : Source)
        → let serial = suc (lookup_or 0 tenant g.counters) in
          Memᴰ tenant tenants
          → acc.tenant_id ≡ tenant
          → acc.id ≡ account_id tenant serial
          → lt acc.balance (zero_f fl) ≡ false
          → Generated done g
          → Generated (suc done) (record {
            accounts = insert (account_id tenant serial) acc g.accounts;
            counters = insert tenant serial g.counters;
            source = source;
          })
    insert-Generated done g tenant acc source h own named nonneg v =
        let serial = suc (lookup_or 0 tenant g.counters) in
        let counters = insert tenant serial g.counters in
        let fresh = All-mono (λ e m. Made-apart tenant g.counters e h m) g.accounts v.made in
        let appended = insert-missing (account_id tenant serial) acc g.accounts fresh in
        let here : Made counters (account_id tenant serial, acc) = record {
          serial = serial;
          reached = rw (own, lookup_or-insert_self) (omega arith);
          named = rw own refl;
          own = named;
          tenant = rw own h;
          nonneg = nonneg;
        } in
        record {
          made = subst (All (Made counters)) (sym appended) (
              All-snoc (Made counters) g.accounts (account_id tenant serial, acc)
                (All-mono (Made-counted tenant g.counters) g.accounts v.made) here);
          distinct =
              subst Distinct (sym appended)
                (Distinct-snoc (account_id tenant serial) acc g.accounts fresh v.distinct);
          count = rw (appended, length-append) (omega (arith, v.count));
        }

    drawn-tenant : (s : Source) → Memᴰ (pick tenants (intn 3 s).0) tenants
    drawn-tenant s = pick-Memᴰ tenants (intn 3 s).0 (rules.intn-lt 3 s (omega arith))

    round-Generated :
        (done : ℕ) (now : Time) (g : Generation F Source)
        → Generated done g
        → Generated (suc done) (round fl rng now g)
    unfolding round
    round-Generated done now g v =
        insert-Generated done g (pick tenants (intn 3 g.source).0) _ _ (drawn-tenant g.source) refl
          refl
          (laws.add-nonneg _ _ (laws.of_int-nonneg _) (laws.div-nonneg _ 99 (laws.of_int-nonneg _)))
          v

    rounds-Generated :
        (n done : ℕ) (clock : ℕ → Time) (g : Generation F Source)
        → Generated done g
        → Generated (n + done) (rounds fl rng n clock g)
    unfolding rounds
    rounds-Generated zero done clock g v = subst (λ k. Generated k g) (omega arith) v
    rounds-Generated (suc n) done clock g v =
        subst (λ k. Generated k (rounds fl rng n clock (round fl rng (clock n) g))) (omega arith)
          (rounds-Generated n (suc done) clock (round fl rng (clock n) g)
            (round-Generated done (clock n) g v))

    -- Whatever a generator with `Intn` in range draws, in IEEE arithmetic: `generateAccounts` returns as
    -- many accounts as it is asked for, no two under one key, each under its own identifier, which is
    -- made of its tenant, one of the three, and of a serial number within the tenant's count; and no
    -- balance is below zero.
    pub generate_accounts-WellFormed :
        (count : ℕ) (clock : ℕ → Time) (source : Source)
        → WellFormed count (generate_accounts fl rng count clock source)
    unfolding generate_accounts
    generate_accounts-WellFormed count clock source =
        let start : Generation F Source = record {
          accounts = [];
          counters = ("alpha", 0) ∷ ("beta", 0) ∷ ("gamma", 0) ∷ [];
          source = source;
        } in
        let v =
          rounds-Generated count 0 clock start
            (record { made = tt; distinct = tt; count = refl }) in
        record {
          counters = (rounds fl rng count clock start).counters;
          made = v.made;
          distinct = v.distinct;
          size = omega (arith, v.count);
        }
