-- ===== src/Base/Maps.antt =====
-- A Go map with string keys, as an association list. Where the program ranges over a map, the list
-- is the order in which the range visits it.
use Prim.Native.String.{String}
use mathlib.Core.Path.{◌≡◌, refl, sym}
use mathlib.Core.Option
use mathlib.Core.Option.{Option, none, some}
use mathlib.Core.List.{List, [], ◌∷◌}
use native.Mathlib.Omega.{arith}
use text.Mathlib.TextEquality.{eq_iff}
use axiler_fin.Base.Tests.{if◌then◌else◌}
use axiler_fin.Base.Text.{◌=ˢ◌, =ˢ_refl, ne→=ˢ}
use mathlib.Core.Logic.{◌≢◌}

abbrev pub Dict {ℓ} : Type ℓ → Type ℓ
Dict V = List (String × V)

module _ {ℓ} {V : Type ℓ} where
  -- `v, ok := m[k]`
  unfoldable pub lookup : String → Dict V → Option V
  lookup key [] = none
  lookup key ((name, held) ∷ rest) = if name =ˢ key then some held else lookup key rest

  -- A write through the pointer that `m[k]` holds: nothing where the key is missing.
  unfoldable pub modify : String → (V → V) → Dict V → Dict V
  modify key f [] = []
  modify key f ((name, held) ∷ rest) =
      if name =ˢ key then (name, f held) ∷ rest else (name, held) ∷ modify key f rest

  -- `m[k] = v`
  unfoldable pub insert : String → V → Dict V → Dict V
  insert key new [] = (key, new) ∷ []
  insert key new ((name, held) ∷ rest) =
      if name =ˢ key then (name, new) ∷ rest else (name, held) ∷ insert key new rest

  -- `m[k]`, which is the zero value `d` where the key is missing.
  unfoldable pub lookup_or : V → String → Dict V → V
  lookup_or d k m = elim (lookup k m) [ none ↦ d | some v ↦ v ]

  pub lookup-modify :
      (key other : String) (f : V → V) (m : Dict V)
      → lookup other (modify key f m)
        ≡ (if key =ˢ other then Option.map f (lookup other m) else lookup other m)
  unfolding lookup modify
  lookup-modify key other f [] = ground arith
  lookup-modify key other f ((name, held) ∷ rest) =
      ground (
        arith,
        lookup-modify key other f rest,
        eq_iff name other,
        eq_iff name key,
        eq_iff key other,
      )

  pub lookup-insert :
      (key other : String) (new : V) (m : Dict V)
      → lookup other (insert key new m) ≡ (if key =ˢ other then some new else lookup other m)
  unfolding insert lookup
  lookup-insert key other new [] = refl
  lookup-insert key other new ((name, held) ∷ rest) = ground (
    arith,
    lookup-insert key other new rest,
    eq_iff name other,
    eq_iff name key,
    eq_iff key other,
  )

  pub lookup-insert_self : (k : String) (v : V) (m : Dict V) → lookup k (insert k v m) ≡ some v
  lookup-insert_self k v m = simp (lookup-insert, =ˢ_refl)

  pub lookup-insert_ne :
      (k j : String) (v : V) (m : Dict V) → j ≢ k → lookup j (insert k v m) ≡ lookup j m
  lookup-insert_ne k j v m h = rw (lookup-insert, ne→=ˢ k j (λ e. h (sym e)))

  pub lookup_or-insert_self :
      (d : V) (k : String) (v : V) (m : Dict V) → lookup_or d k (insert k v m) ≡ v
  unfolding lookup_or
  lookup_or-insert_self d k v m = rw (lookup-insert_self k v m, lookup_or)

  pub lookup_or-insert_ne :
      (d : V) (k j : String) (v : V) (m : Dict V)
      → j ≢ k
      → lookup_or d j (insert k v m) ≡ lookup_or d j m
  unfolding lookup_or
  lookup_or-insert_ne d k j v m h = rw (lookup-insert_ne k j v m h, lookup_or)
