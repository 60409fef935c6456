-- ===== src/Base/Regexp.antt =====
-- What the program uses of Go's `regexp`: expressions as syntax trees, and an unanchored search by
-- derivatives.
use Prim.Native.Nat.{ℕ, ◌+◌}
use Prim.Native.String.{String}
use mathlib.Core.Path.{◌≡◌, refl}
use mathlib.Core.Bool.{Bool, true, false, ◌&&◌, ◌||◌}
use mathlib.Core.List.{List, [], ◌∷◌}
use axiler_fin.Base.Tests.{leb, ◌==◌, if◌then◌else◌}
use axiler_fin.Base.Text.{codes}

-- `never` is the expression with no match, which only derivatives reach.
pub data Regexp : Type 0 where
  never : Regexp
  empty : Regexp
  class : (ℕ → Bool) → Regexp
  seq : Regexp → Regexp → Regexp
  alt : Regexp → Regexp → Regexp
  star : Regexp → Regexp

-- Whether the expression matches the empty text.
unfoldable pub nullable : Regexp → Bool
nullable never = false
nullable empty = true
nullable (class p) = false
nullable (seq r s) = nullable r && nullable s
nullable (alt r s) = nullable r || nullable s
nullable (star r) = true

abbrev then_seq : Regexp → Regexp → Regexp
then_seq never s = never
then_seq empty s = s
then_seq r s = seq r s

abbrev or_alt : Regexp → Regexp → Regexp
or_alt never s = s
or_alt r never = r
or_alt r s = alt r s

-- What is left to match after the code point `c`.
derive : ℕ → Regexp → Regexp
unfolding nullable
derive c never = never
derive c empty = never
derive c (class p) = if p c then empty else never
derive c (seq r s) =
    let left = then_seq (derive c r) s in
    let right = derive c s in if nullable r then or_alt left right else left
derive c (alt r s) = or_alt (derive c r) (derive c s)
derive c (star r) = then_seq (derive c r) (star r)

-- Whether a match begins at the start of the text.
match_here : Regexp → List ℕ → Bool
unfolding nullable derive
match_here r [] = nullable r
match_here r (c ∷ s) = nullable r || match_here (derive c r) s

-- `r.MatchString(s)`: whether a match begins anywhere in the text.
unfoldable pub match_string : Regexp → List ℕ → Bool
unfolding match_here
match_string r [] = match_here r []
match_string r (c ∷ s) = match_here r (c ∷ s) || match_string r s

-- The simple case folding of `(?i)`, on the orbits of the ASCII letters: U+017F folds to `s`, and
-- U+212A to `k`.
abbrev pub fold : ℕ → ℕ
fold c =
    if leb b'A' c && leb c b'Z'
    then c + 32
    else (if c == 0x17f then b's' else (if c == 0x212a then b'k' else c))

-- A literal, with and without `(?i)`.
unfoldable pub literal_fold : List ℕ → Regexp
literal_fold [] = empty
literal_fold (k ∷ s) = seq (class (λ c. fold c == fold k)) (literal_fold s)

unfoldable pub literal : List ℕ → Regexp
literal [] = empty
literal (k ∷ s) = seq (class (λ c. c == k)) (literal s)

-- An alternation of literals; an empty text is an empty alternative.
unfoldable pub one_of : (List ℕ → Regexp) → List String → Regexp
one_of lit [] = never
one_of lit (s ∷ []) = lit (codes s)
one_of lit (s ∷ (t ∷ rest)) = alt (lit (codes s)) (one_of lit (t ∷ rest))

-- An expression that matches the empty text is found in every text.
pub match_string-nullable : (r : Regexp) (s : List ℕ) → nullable r ≡ true → match_string r s ≡ true
unfolding match_string match_here
match_string-nullable r [] h = h
match_string-nullable r (c ∷ s) h = rw h

regexp_tests :
    (match_string (one_of literal_fold ("union" ∷ "select" ∷ [])) (codes "a SeLect b") ≡ true)
    × (match_string (one_of literal_fold ("union" ∷ "select" ∷ [])) (codes "a Selct b") ≡ false)
unfolding match_string one_of literal_fold
regexp_tests = (refl, refl)
