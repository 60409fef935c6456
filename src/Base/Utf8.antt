-- ===== src/Base/Utf8.antt =====
-- The conversion of bytes to text, rune by rune. What is not UTF-8 becomes U+FFFD.
use Prim.Native.Nat.{ℕ, ◌+◌, ◌-◌, ◌*◌}
use mathlib.Core.Bool.{◌&&◌, ◌||◌}
use mathlib.Core.Path.{◌≡◌, refl}
use mathlib.Core.List.{List, [], ◌∷◌, ◌++◌}
use axiler_fin.Base.Tests.{ltb, leb, ◌==◌, if◌then◌else◌}

abbrev pub replacement : ℕ
replacement = 0xfffd

-- What has been read of a sequence: how long it is, how many bytes are to come, and its value so far.
record Pending : Type 0 where
  size : ℕ
  missing : ℕ
  value : ℕ

abbrev idle : Pending
idle = record { size = 0; missing = 0; value = 0 }

-- The rune of a complete sequence.
abbrev complete : ℕ → ℕ → ℕ
complete size v =
    if (size == 3 && (ltb v 0x800 || (leb 0xd800 v && leb v 0xdfff)))
      || (size == 4 && (ltb v 0x10000 || ltb 0x10ffff v))
    then replacement
    else v

abbrev first_byte : ℕ → List ℕ × Pending
first_byte b =
    if ltb b 0x80
    then (b ∷ [], idle)
    else (if leb 0xc2 b && leb b 0xdf
        then ([], record { size = 2; missing = 1; value = b - 0xc0 })
        else (if leb 0xe0 b && leb b 0xef
            then ([], record { size = 3; missing = 2; value = b - 0xe0 })
            else (if leb 0xf0 b && leb b 0xf4
                then ([], record { size = 4; missing = 3; value = b - 0xf0 })
                else (replacement ∷ [], idle))))

abbrev next_byte : Pending → ℕ → List ℕ × Pending
next_byte p b =
    if p.missing == 0
    then first_byte b
    else (if leb 0x80 b && leb b 0xbf
        then (let v = p.value * 64 + (b - 0x80) in
            if p.missing == 1
            then (complete p.size v ∷ [], idle)
            else ([], record { size = p.size; missing = p.missing - 1; value = v }))
        else (let (out, q) = first_byte b in (replacement ∷ out, q)))

runes_from : Pending → List ℕ → List ℕ
runes_from p [] = if p.missing == 0 then [] else replacement ∷ []
runes_from p (b ∷ s) = let (out, q) = next_byte p b in out ++ runes_from q s

-- The code points of `string(bytes)`
unfoldable pub runes : List ℕ → List ℕ
unfolding runes_from
runes bytes = runes_from idle bytes

runes_test :
    runes (0x61 ∷ 0xc5 ∷ 0xbf ∷ 0xe2 ∷ 0x84 ∷ 0xaa ∷ 0xff ∷ 0x62 ∷ [])
    ≡ 0x61 ∷ 0x17f ∷ 0x212a ∷ 0xfffd ∷ 0x62 ∷ []
unfolding runes
runes_test = refl
