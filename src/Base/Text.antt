-- ===== src/Base/Text.antt =====
-- Cutting texts: what Python's `removeprefix` and `split` do with them. Positions are in bytes.
use Prim.Native.Nat.{ℕ, ◌+◌}
use Prim.Native.String.{String, len, slice}
use mathlib.Core.Option.{Option, none, some}
use text.Mathlib.Text.{find?}

-- The text from a position on.
abbrev pub from_byte : ℕ → String → String
from_byte n s = slice s n (len s)

-- What stands before and after the first place of a separator.
abbrev pub cut_at : (separator s : String) → Option (String × String)
cut_at separator s = elim (find? s separator) [
  | none ↦ none
  | some n ↦ some (slice s 0 n, from_byte (n + len separator) s)
]

-- `s[:n]`
abbrev pub prefix : ℕ → String → String
prefix n s = slice s 0 n
