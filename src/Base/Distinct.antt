-- ===== src/Base/Distinct.antt =====
-- Association lists with one entry for each key, as a Go map is.
use Prim.Native.String.{String}
use mathlib.Core.Path.{◌≡◌, refl, sym, ap}
use mathlib.Core.Logic.{◌≢◌}
use mathlib.Core.Bool.{true, false}
use mathlib.Core.Option.{none}
use mathlib.Core.List.{[], ◌∷◌, ◌++◌}
use axiler_fin.Base.Lists.{All}
use axiler_fin.Base.Text.{◌=ˢ◌, ne→=ˢ}
use axiler_fin.Base.Maps.{Dict, insert, lookup, lookup_or}

module _ {V : Type 0} where
  -- No two entries have the same key.
  abbrev pub Distinct : Dict V → Type 0
  Distinct [] = Unit
  Distinct ((k, v) ∷ m) = All (λ e. e.0 ≢ k) m × Distinct m

  -- A new key goes to the end.
  pub insert-missing :
      (k : String) (v : V) (m : Dict V) → All (λ e. e.0 ≢ k) m → insert k v m ≡ m ++ (k, v) ∷ []
  unfolding insert
  insert-missing k v [] h = refl
  insert-missing k v ((j, w) ∷ m) (ne, h) =
      rw (ne→=ˢ j k ne) (ap (λ rest. (j, w) ∷ rest) (insert-missing k v m h))

  pub All-snoc {κ} :
      (P : String × V → Type κ) (m : Dict V) (e : String × V) → All P m → P e → All P (m ++ e ∷ [])
  All-snoc P [] e h p = (p, tt)
  All-snoc P (x ∷ m) e (q, h) p = (q, All-snoc P m e h p)

  pub Distinct-snoc :
      (k : String) (v : V) (m : Dict V)
      → All (λ e. e.0 ≢ k) m
      → Distinct m
      → Distinct (m ++ (k, v) ∷ [])
  Distinct-snoc k v [] ne d = (tt, tt)
  Distinct-snoc k v ((j, w) ∷ m) (apart, ne) (d, rest) =
      (All-snoc (λ e. e.0 ≢ j) m (k, v) d (λ e. apart (sym e)), Distinct-snoc k v m ne rest)

  lookup-missing : (k : String) (m : Dict V) → All (λ e. e.0 ≢ k) m → lookup k m ≡ none
  unfolding lookup
  lookup-missing k [] h = refl
  lookup-missing k ((j, w) ∷ m) (ne, h) = rw (ne→=ˢ j k ne) (lookup-missing k m h)

  pub lookup_or-missing :
      (d : V) (k : String) (m : Dict V) → All (λ e. e.0 ≢ k) m → lookup_or d k m ≡ d
  unfolding lookup_or
  lookup_or-missing d k m h = rw (lookup-missing k m h, lookup_or) refl

  pub lookup_or-head :
      (d : V) (k j : String) (v : V) (m : Dict V) → (j =ˢ k) ≡ true → lookup_or d k ((j, v) ∷ m) ≡ v
  unfolding lookup_or lookup
  lookup_or-head d k j v m h = rw (lookup_or, h) refl

  pub lookup_or-tail :
      (d : V) (k j : String) (v : V) (m : Dict V)
      → (j =ˢ k) ≡ false
      → lookup_or d k ((j, v) ∷ m) ≡ lookup_or d k m
  unfolding lookup_or lookup
  lookup_or-tail d k j v m h = rw (lookup_or, h) refl
