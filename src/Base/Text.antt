-- ===== src/Base/Text.antt =====
-- What the program uses of Go's `strings` and `net` packages, over native strings. A text is walked
-- by code point; `codes` gives the numbers.
use Prim.Native.Nat.{ℕ, zero, suc, ◌+◌, ◌/◌, ◌%◌}
use Prim.Native.Char.{Char, code}
use text.Mathlib.TextLemmas.{nil-append, cons-append}
use Prim.Native.String
use Prim.Native.String.{String, slice}
use mathlib.Core.Path.{◌≡◌, refl, ap, ◌∙◌}
use mathlib.Core.Logic.{◌≢◌}
use native.Mathlib.Omega.{arith}
use text.Mathlib.TextEquality.{eq_iff}
use mathlib.Core.Bool.{Bool, true, false, not, ◌&&◌, ◌||◌}
use mathlib.Core.Option.{Option, none, some}
use mathlib.Core.List.{List, [], ◌∷◌}
use text.Mathlib.Text.{◌==◌ as str_eq}
use axiler_fin.Base.Tests.{ltb, leb, ◌==◌, if◌then◌else◌}

infix 50 ◌=ˢ◌
infixr 65 ◌+ˢ◌
abbrev pub ◌=ˢ◌ : String → String → Bool
s =ˢ t = str_eq s t

abbrev pub ◌+ˢ◌ : String → String → String
s +ˢ t = String.◌++◌ s t

abbrev pub codes : String → List ℕ
codes String.[] = []
codes (String.◌∷◌ c s) = code c ∷ codes s

-- `strings.HasPrefix(s, p)`
unfoldable pub has_prefix : List ℕ → List ℕ → Bool
has_prefix s [] = true
has_prefix [] (c ∷ p) = false
has_prefix (d ∷ s) (c ∷ p) = d == c && has_prefix s p

-- `strings.Contains(s, p)`
unfoldable pub contains : List ℕ → List ℕ → Bool
unfolding has_prefix
contains [] p = has_prefix [] p
contains (c ∷ s) p = has_prefix (c ∷ s) p || contains s p

-- Whether a code point stands in a text.
unfoldable pub has_code : ℕ → String → Bool
has_code k String.[] = false
has_code k (String.◌∷◌ c s) = code c == k || has_code k s

-- The text before the first `k`, and the text after it if `k` stands in it: `strings.SplitN(s, k, 2)`.
unfoldable pub cut : ℕ → String → String × Option String
cut k String.[] = ("", none)
cut k (String.◌∷◌ c s) =
    let (head, tail) = cut k s in if code c == k then ("", some s) else (String.◌∷◌ c head, tail)

-- `strings.Split(s, k)[0]`
abbrev pub before : ℕ → String → String
before k s = (cut k s).0

-- The white space of `strings.TrimSpace`: `unicode.IsSpace`.
abbrev pub is_space : ℕ → Bool
is_space c =
    (leb 9 c && leb c 13)
    || c == 32
    || c == 0x85
    || c == 0xa0
    || c == 0x1680
    || (leb 0x2000 c && leb c 0x200a)
    || c == 0x2028
    || c == 0x2029
    || c == 0x202f
    || c == 0x205f
    || c == 0x3000

unfoldable pub trim_left : String → String
trim_left String.[] = ""
trim_left (String.◌∷◌ c s) =
    let rest = trim_left s in if is_space (code c) then rest else String.◌∷◌ c s

unfoldable pub trim_right : String → String
trim_right String.[] = ""
trim_right (String.◌∷◌ c s) =
    let rest = trim_right s in if is_space (code c) && rest =ˢ "" then "" else String.◌∷◌ c rest

-- `strings.TrimSpace`
unfoldable pub trim_space : String → String
unfolding trim_left trim_right
trim_space s = trim_right (trim_left s)

-- `strings.Join(parts, ", ")`
unfoldable pub join : List String → String
join [] = ""
join (s ∷ []) = s
join (s ∷ (t ∷ rest)) = s +ˢ ", " +ˢ join (t ∷ rest)

-- `strconv.Itoa`, the `%d` of `fmt.Sprintf`, on a natural number. `n + 1` rounds are enough.
unfoldable pub decimal_from : ℕ → ℕ → String
decimal_from zero n = ""
decimal_from (suc fuel) n =
    let front = decimal_from fuel (n / 10) in
    let digit = slice "0123456789" (n % 10) (n % 10 + 1) in
    if ltb n 10 then digit else front +ˢ digit

unfoldable pub decimal : ℕ → String
unfolding decimal_from
decimal n = decimal_from (suc n) n

-- The host of `net.SplitHostPort`: "" where that returns an error.
bracketed_host : String × Option String → String
unfolding has_code
bracketed_host (host, none) = ""
bracketed_host (host, some String.[]) = ""
bracketed_host (host, some (String.◌∷◌ c port)) =
    if code c == b':'
      && not (has_code b':' port)
      && not (has_code b'[' host)
      && not (has_code b'[' port)
      && not (has_code b']' port)
    then host
    else ""

plain_host : String × Option String → String
unfolding has_code
plain_host (host, none) = ""
plain_host (host, some port) =
    if has_code b':' port
      || has_code b'[' host
      || has_code b']' host
      || has_code b'[' port
      || has_code b']' port
    then ""
    else host

unfoldable pub split_host : String → String
unfolding cut bracketed_host plain_host
split_host String.[] = ""
split_host (String.◌∷◌ c s) =
    if code c == b'[' then bracketed_host (cut b']' s) else plain_host (cut b':' (String.◌∷◌ c s))

text_tests :
    (split_host "127.0.0.1:1234" ≡ "127.0.0.1")
    × (split_host "[::1]:80" ≡ "::1")
    × (split_host "::1:80" ≡ "")
    × (trim_space " a b " ≡ "a b")
    × (decimal 10485760 ≡ "10485760")
    × (contains (codes "xabcx") (codes "abc") ≡ true)
unfolding split_host trim_space decimal contains
text_tests = (refl, refl, refl, refl, refl, refl)

pub =ˢ_refl : (s : String) → (s =ˢ s) ≡ true
=ˢ_refl s = (eq_iff s s).1 refl

pub ne→=ˢ : (s t : String) → s ≢ t → (s =ˢ t) ≡ false
ne→=ˢ s t h = ground (arith, eq_iff s t)

pub before-cons :
    (k : ℕ) (d : Char) (s : String)
    → (code d == k) ≡ false
    → before k (String.◌∷◌ d s) ≡ String.◌∷◌ d (before k s)
unfolding cut
before-cons k d s h = ground arith

-- Up to the first separator the text is what stands before it.
pub before-append :
    (k : ℕ) (s t : String) (c : Char)
    → has_code k s ≡ false
    → (code c == k) ≡ true
    → before k (s +ˢ String.◌∷◌ c t) ≡ s
unfolding has_code cut
before-append k String.[] t c h e = rw nil-append (ground arith)
before-append k (String.◌∷◌ d s) t c h e =
    let nd : (code d == k) ≡ false = ground arith in
    let rest : has_code k s ≡ false = ground arith in
    rw cons-append
      (before-cons k d (s +ˢ String.◌∷◌ c t) nd ∙ ap (String.◌∷◌ d) (before-append k s t c rest e))

cut-cons :
    (k : ℕ) (d : Char) (s t : String) (rest : Option String)
    → (code d == k) ≡ false
    → cut k s ≡ (t, rest)
    → cut k (String.◌∷◌ d s) ≡ (String.◌∷◌ d t, rest)
unfolding cut
cut-cons k d s t rest h e = rw (e, h) refl

cut-here :
    (k : ℕ) (t : String) (c : Char) → (code c == k) ≡ true → cut k (String.◌∷◌ c t) ≡ ("", some t)
unfolding cut
cut-here k t c e = rw e refl

-- The text is cut at the first separator.
pub cut-append :
    (k : ℕ) (s t : String) (c : Char)
    → has_code k s ≡ false
    → (code c == k) ≡ true
    → cut k (s +ˢ String.◌∷◌ c t) ≡ (s, some t)
unfolding has_code
cut-append k String.[] t c h e = rw nil-append (cut-here k t c e)
cut-append k (String.◌∷◌ d s) t c h e =
    let nd : (code d == k) ≡ false = ground arith in
    let rest : has_code k s ≡ false = ground arith in
    rw cons-append (cut-cons k d (s +ˢ String.◌∷◌ c t) s (some t) nd (cut-append k s t c rest e))
