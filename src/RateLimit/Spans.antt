-- ===== src/RateLimit/Spans.antt =====
-- Series of calls in time: how many are allowed, how long they take, and what is refilled meanwhile.
use axiler_fin.Base.{ℕ, suc, ◌+◌, ◌-◌, ◌*◌, ◌≤◌, ◌≡◌, Bool, List, [], ◌∷◌, arith, if◌then◌else◌}
use axiler_fin.Models.{Time}

-- Tokens are counted in parts of 1 / 60,000,000,000: a limit of `n` for a minute is `n` parts for
-- each nanosecond.
abbrev pub parts : ℕ
parts = 60_000_000_000

unfoldable pub count : List Bool → ℕ
count [] = 0
count (b ∷ bs) = if b then suc (count bs) else count bs

-- The calls after one at `at`: none is before the one ahead of it, or more than `longest` nanoseconds
-- after it.
abbrev pub Paced : ℕ → Time → List Time → Type 0
Paced longest at [] = Unit
Paced longest at (now ∷ times) = (at ≤ now) × (now - at ≤ longest) × Paced longest now times

-- The time of the last call.
abbrev pub until : Time → List Time → Time
until at [] = at
until at (now ∷ times) = until now times

pub until-le :
    (longest : ℕ) (at : Time) (times : List Time) → Paced longest at times → at ≤ until at times
until-le longest at [] p = omega arith
until-le longest at (now ∷ times) (h, k, p) = omega (arith, until-le longest now times p)

pub grown-add :
    (limit : ℕ) (at now last : Time)
    → at ≤ now
    → now ≤ last
    → limit * (now - at) + limit * (last - now) ≡ limit * (last - at)
grown-add limit at now last h k =
    let e : last - at ≡ (now - at) + (last - now) = omega arith in rw e (omega arith)
