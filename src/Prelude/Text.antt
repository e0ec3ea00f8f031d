-- ===== src/Prelude/Text.antt =====
-- What the program uses of Python's `str` and `datetime`.
use Prim.Native.Nat.{ℕ}
use Prim.Native.Char.{Char, code}
use Prim.Native.String.{String}
use mathlib.Core.Bool.{Bool, true, false, not, ◌&&◌, ◌||◌}
use mathlib.Core.Option.{Option, none, some}
use btx_omni_prospect.Prelude.Tests.{leb, ◌==◌, nat_eq, if◌then◌else◌}

-- The white space of `str.strip`.
is_space : Char → Bool
is_space c =
    let n = code c in
    leb 9 n && leb n 13
    || leb 28 n && leb n 32
    || n == 133
    || n == 160
    || n == 5760
    || leb 8192 n && leb n 8202
    || n == 8232
    || n == 8233
    || n == 8239
    || n == 8287
    || n == 12288

abbrev pub is_empty : String → Bool
is_empty String.[] = true
is_empty (String.◌∷◌ c s) = false

strip_right : String → String
unfolding is_space
strip_right String.[] = String.[]
strip_right (String.◌∷◌ c s) =
    let rest = strip_right s in if is_space c && is_empty rest then String.[] else String.◌∷◌ c rest

strip_left : String → String
unfolding is_space
strip_left String.[] = String.[]
strip_left (String.◌∷◌ c s) = let rest = strip_left s in if is_space c then rest else String.◌∷◌ c s

-- `value.strip()`.
unfoldable pub strip : String → String
unfolding strip_left strip_right
strip s = strip_left (strip_right s)

-- The truth value of a `str | None`.
abbrev pub some_truthy : Option String → Bool
some_truthy none = false
some_truthy (some s) = not (is_empty s)

-- `value or default`.
abbrev pub or_default : Option String → String → String
or_default none d = d
or_default (some s) d = if is_empty s then d else s

-- `a or b` of two `str | None`.
abbrev pub or_else : Option String → Option String → Option String
or_else a b = if some_truthy a then a else b

-- A `datetime`: its place on the UTC time line, and whether it has a time zone.
pub record DateTime : Type 0 where
  pub instant : ℕ
  pub aware : Bool
