-- ===== src/Common/Latin.antt =====
-- White space, and the letters of Latin-1 texts, as HTTP headers are.
use Prim.Native.Char.{Char, code}
use Prim.Native.String as Str
use Prim.Native.String.{String}
use josu.Common.Tests.{ltb, leb, nat_eq, if◌then◌else◌}
use mathlib.Core.Bool.{Bool, true, false, ◌&&◌, ◌||◌, not}
use mathlib.Core.Option.{Option, none, some}
use Prim.Native.Nat.{ℕ, ◌+◌}

abbrev pub is_within : ℕ → ℕ → ℕ → Bool
is_within a b n = leb a n && leb n b

-- `c.isspace()`
abbrev pub is_space : Char → Bool
is_space c =
    let n = code c in
    is_within 9 13 n
    || is_within 28 32 n
    || nat_eq n 133
    || nat_eq n 160
    || nat_eq n 5760
    || is_within 8192 8202 n
    || is_within 8232 8233 n
    || nat_eq n 8239
    || nat_eq n 8287
    || nat_eq n 12288

-- The code of `c.lower()`, for a Latin-1 character.
abbrev pub lower_code : Char → ℕ
lower_code c =
    if is_within 65 90 (code c) || (is_within 192 222 (code c) && not (nat_eq (code c) 215))
    then code c + 32
    else code c

abbrev pub is_empty : String → Bool
is_empty Str.[] = true
is_empty (Str.◌∷◌ c s) = false

unfoldable pub strip_left : String → String
strip_left Str.[] = Str.[]
strip_left (Str.◌∷◌ c s) = let rest = strip_left s in if is_space c then rest else Str.◌∷◌ c s

unfoldable pub strip_right : String → String
strip_right Str.[] = Str.[]
strip_right (Str.◌∷◌ c s) =
    let rest = strip_right s in if is_space c && is_empty rest then Str.[] else Str.◌∷◌ c rest

-- `s.strip()`
abbrev pub strip : String → String
strip s = strip_right (strip_left s)

-- `s[len(p):]` if `s.lower().startswith(p)`
unfoldable pub cut_prefix_lower : (p s : String) → Option String
cut_prefix_lower Str.[] s = some s
cut_prefix_lower (Str.◌∷◌ d p) Str.[] = none
cut_prefix_lower (Str.◌∷◌ d p) (Str.◌∷◌ c s) =
    let rest = cut_prefix_lower p s in if nat_eq (lower_code c) (code d) then rest else none

-- `s.lower() == p`
abbrev pub is_lower_of : (p s : String) → Bool
is_lower_of p s = elim (cut_prefix_lower p s) [ none ↦ false | some rest ↦ is_empty rest ]

-- `s.split(c)[0]`
unfoldable pub before : ℕ → String → String
before n Str.[] = Str.[]
before n (Str.◌∷◌ c s) =
    let rest = before n s in if nat_eq (code c) n then Str.[] else Str.◌∷◌ c rest

-- `s.isascii()`
unfoldable pub is_ascii : String → Bool
is_ascii Str.[] = true
is_ascii (Str.◌∷◌ c s) = ltb (code c) 128 && is_ascii s
