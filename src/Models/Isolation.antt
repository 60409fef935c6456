-- ===== src/Models/Isolation.antt =====
-- `GetAccountsByTenant` returns the accounts of the tenant, all of them and no other.
use mathlib.Core.List.{Memᴰ}
use axiler_fin.Base.{
  String, ◌≡◌, ◌↔◌, inl, inr, subst, sym, ap, true, ◌∙◌, if◌then◌else◌, [], ◌∷◌, Dict, ◌=ˢ◌, eq_iff,
  Bool-cases,
}
use axiler_fin.Models.{Account, SyntheticDatabase, accounts_from, get_accounts_by_tenant}

module _ {F : Type 0} (tenant : String) where
  -- An entry of the map whose account is the tenant's.
  abbrev pub OwnEntry : Account F → Dict (Account F) → Type 0
  OwnEntry acc m = (k : String) × Memᴰ (k, acc) m × (acc.tenant_id ≡ tenant)

  OwnEntry-cons :
      {acc : Account F} {e : String × Account F} {m : Dict (Account F)}
      → OwnEntry acc m
      → OwnEntry acc (e ∷ m)
  OwnEntry-cons (k, h, own) = (k, Memᴰ.tail h, own)

  accounts_from_here :
      {acc a : Account F} (k : String) (rest : Dict (Account F))
      → a.tenant_id ≡ tenant
      → (Memᴰ acc (accounts_from tenant rest) → OwnEntry acc rest)
      → Memᴰ acc (a ∷ accounts_from tenant rest)
      → OwnEntry acc ((k, a) ∷ rest)
  accounts_from_here k rest own ih (Memᴰ.head p) =
      (k, Memᴰ.head (λ i. (k, p i)), subst (λ x. x.tenant_id ≡ tenant) (sym p) own)
  accounts_from_here k rest own ih (Memᴰ.tail h) = OwnEntry-cons (ih h)

  accounts_from_sound :
      {acc : Account F} (m : Dict (Account F)) → Memᴰ acc (accounts_from tenant m) → OwnEntry acc m
  unfolding accounts_from
  accounts_from_sound [] h = elim h [ ]
  accounts_from_sound {acc} ((k, a) ∷ rest) h = elim (Bool-cases (a.tenant_id =ˢ tenant)) [
    | inl own ↦ accounts_from_here k rest ((eq_iff _ _).0 own) (accounts_from_sound rest) (
        subst
          (λ b. Memᴰ acc (if b then a ∷ accounts_from tenant rest else accounts_from tenant rest))
          own h)
    | inr other ↦ OwnEntry-cons (
        accounts_from_sound rest (
          subst
            (λ b. Memᴰ acc (if b then a ∷ accounts_from tenant rest else accounts_from tenant rest))
            other h))
  ]

  accounts_from-tail :
      {acc : Account F} (a : Account F) (j : String) (rest : Dict (Account F))
      → Memᴰ acc (accounts_from tenant rest)
      → Memᴰ acc (accounts_from tenant ((j, a) ∷ rest))
  unfolding accounts_from
  accounts_from-tail a j rest h = elim (Bool-cases (a.tenant_id =ˢ tenant)) [
    | inl own ↦ rw own (Memᴰ.tail h)
    | inr other ↦ rw other h
  ]

  accounts_from_complete :
      {k : String} {acc : Account F} (m : Dict (Account F))
      → Memᴰ (k, acc) m
      → acc.tenant_id ≡ tenant
      → Memᴰ acc (accounts_from tenant m)
  unfolding accounts_from
  accounts_from_complete [] h e = elim h [ ]
  accounts_from_complete {acc} ((j, a) ∷ rest) (Memᴰ.head p) e =
      let same : acc ≡ a = ap (λ x. x.1) p in
      let own : (a.tenant_id =ˢ tenant) ≡ true =
        (eq_iff _ _).1 (ap (λ x. x.tenant_id) (sym same) ∙ e) in
      rw own (Memᴰ.head same)
  accounts_from_complete ((j, a) ∷ rest) (Memᴰ.tail h) e =
      accounts_from-tail a j rest (accounts_from_complete rest h e)

-- `GetAccountsByTenant` returns an account exactly if the map holds it under some key and it is the
-- tenant's own.
pub get_accounts_by_tenant_iff :
    {F : Type 0} (tenant : String) (db : SyntheticDatabase F) (acc : Account F)
    → Memᴰ acc (get_accounts_by_tenant tenant db) ↔ OwnEntry tenant acc db.accounts
unfolding get_accounts_by_tenant
get_accounts_by_tenant_iff tenant db acc = (
  accounts_from_sound tenant db.accounts,
  λ (k, h, own). accounts_from_complete tenant db.accounts h own,
)
