-- ===== src/Base/Float.antt =====
-- Go's `float64`. The type has no counterpart here, so it and its operations are parameters, with
-- the facts of IEEE 754 binary64 arithmetic that the proofs rest on. `lt a b ≡ false` is the form
-- of `b ≤ a` that a NaN satisfies too.
mod Fixed
unfoldable pub use Fixed.{fixed_point}
pub use Fixed.{fixed_point-Ieee}
unfoldable pub use Defs.*
mod Defs
