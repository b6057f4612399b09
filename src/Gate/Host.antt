-- ===== src/Gate/Host.antt =====
-- What the report readers of gate.py take from Python's runtime and from the file system: the
-- digits of Unicode, `float`, and the resolution of a path against the repository's root.
use security_toolchain.Prelude.{ℕ, Option, Text}
use security_toolchain.Json.{Json}

-- `str.isdigit` of a character, and the value that `int` gives it (a superscript has none).
pub data Digit : Type 0 where
  no_digit : Digit
  digit_only : Digit
  decimal : ℕ → Digit

-- A float, as far as a comparison with a whole number can tell: its integer part.
pub data Score : Type 0 where
  nan : Score
  negative : Score
  whole : ℕ → Score
  infinite : Score

-- `float(x)`
pub data ToFloat : Type 0 where
  number : Score → ToFloat
  raises_value_error : ToFloat
  raises_type_error : ToFloat
  raises_overflow_error : ToFloat

-- `Path(candidate).resolve().relative_to(root)`: the path below the root, a `ValueError` or an `OSError`, or
-- the `RuntimeError` with which `resolve` answers a loop of symbolic links before Python 3.13.
pub data Resolved : Type 0 where
  below : Text → Resolved
  elsewhere : Resolved
  symlink_loop : Resolved

pub record Host : Type 0 where
  pub digit : ℕ → Digit
  pub to_float : Json → ToFloat
  -- `None` if there is no root; else where a candidate lies
  pub relative_to_root : Option (Text → Resolved)
  -- `str(x)` of a value that is no string
  pub show : Json → Text
