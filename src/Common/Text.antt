-- ===== src/Common/Text.antt =====
-- Python's `str` over the native texts, character by character. What the program takes from the
-- Unicode character database and from the date formatter is the interface `Runtime`.
use Prim.Native.Nat.{ℕ, zero, suc}
use Prim.Native.Char.{Char, code}
use Prim.Native.String.{String}
use mathlib.Core.Bool.{Bool, true, false, not, ◌&&◌}
use mathlib.Core.Option.{Option}
use taskforge_platform.Common.Tests.{if◌then◌else◌, nat_beq}

-- An instant as `datetime` keeps it: the wall clock in microseconds and the offset of the zone in
-- minutes from the west end of the scale, or no zone for a naive value.
pub record Datetime : Type 0 where
  pub micros : ℕ
  pub tzinfo : Option ℕ

-- The tables of `str.isspace`, `str.isalnum` and `str.lower`, and the ISO 8601 printer and parser
-- of `datetime`; the parser answers `none` where `fromisoformat` raises ValueError.
pub record Runtime : Type 0 where
  pub is_space : Char → Bool
  pub is_alnum : Char → Bool
  pub lower : String → String
  pub isoformat : Datetime → String
  pub fromisoformat : String → Option Datetime

-- `len(s)`, in code points.
abbrev pub str_len : String → ℕ
str_len String.[] = 0
str_len (String.◌∷◌ c s) = suc (str_len s)

-- `not s`
abbrev pub is_empty : String → Bool
is_empty String.[] = true
is_empty (String.◌∷◌ c s) = false

abbrev pub all_chars : (Char → Bool) → String → Bool
all_chars p String.[] = true
all_chars p (String.◌∷◌ c s) = p c && all_chars p s

-- `s[:n]`
abbrev pub str_take : ℕ → String → String
str_take zero s = String.[]
str_take (suc n) String.[] = String.[]
str_take (suc n) (String.◌∷◌ c s) = String.◌∷◌ c (str_take n s)

-- `s.replace(c, '')` for a character by its code point.
abbrev pub without_char : ℕ → String → String
without_char k String.[] = String.[]
without_char k (String.◌∷◌ c s) =
    let rest = without_char k s in if nat_beq (code c) k then rest else String.◌∷◌ c rest

module _ (space : Char → Bool) where
  abbrev pub lstrip : String → String
  lstrip String.[] = String.[]
  lstrip (String.◌∷◌ c s) = let rest = lstrip s in if space c then rest else String.◌∷◌ c s

  -- Drops a character if it is a space and nothing is left behind it.
  abbrev pub keep_before : Char → String → String
  keep_before c String.[] = if space c then String.[] else String.◌∷◌ c String.[]
  keep_before c (String.◌∷◌ d s) = String.◌∷◌ c (String.◌∷◌ d s)

  abbrev pub rstrip : String → String
  rstrip String.[] = String.[]
  rstrip (String.◌∷◌ c s) = keep_before c (rstrip s)

module _ ⦃rt : Runtime⦄ where
  -- `s.isspace()`: some character, and every one of them white.
  abbrev pub isspace : String → Bool
  isspace s = not (is_empty s) && all_chars rt.is_space s

  -- `s.isalnum()`
  abbrev pub isalnum : String → Bool
  isalnum s = not (is_empty s) && all_chars rt.is_alnum s

  -- `s.strip()`
  abbrev pub strip : String → String
  strip s = rstrip rt.is_space (lstrip rt.is_space s)
