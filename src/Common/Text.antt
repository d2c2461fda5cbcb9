-- ===== src/Common/Text.antt =====
-- The string methods that the code uses.
use Prim.Native.Char.{Char, code}
use Prim.Native.String as Str
use Prim.Native.String.{String}
use josu.Common.{
  Bool, true, ◌&&◌, ◌||◌, Option, none, some, List, [], ◌∷◌, nat_eq, if◌then◌else◌, is_some, ◌≡◌,
  refl, nat_eq_iff,
}

-- `s[len(p):]` if `s.startswith(p)`
unfoldable pub cut_prefix : (p s : String) → Option String
cut_prefix Str.[] s = some s
cut_prefix (Str.◌∷◌ d p) Str.[] = none
cut_prefix (Str.◌∷◌ d p) (Str.◌∷◌ c s) =
    let rest = cut_prefix p s in if nat_eq (code c) (code d) then rest else none

-- `s.startswith(p)`
abbrev pub starts_with : (s p : String) → Bool
starts_with s p = is_some (cut_prefix p s)

-- `not s.strip()`, for a line: nothing but spaces and tabs
abbrev is_space : Char → Bool
is_space c = nat_eq (code c) 32 || nat_eq (code c) 9

unfoldable pub is_blank : String → Bool
is_blank Str.[] = true
is_blank (Str.◌∷◌ c s) = is_space c && is_blank s

abbrev prepend : Char → List String → List String
prepend c [] = (Str.◌∷◌ c Str.[]) ∷ []
prepend c (s ∷ ss) = (Str.◌∷◌ c s) ∷ ss

-- `s.split("\t")`
unfoldable pub split_tab : String → List String
split_tab Str.[] = "" ∷ []
split_tab (Str.◌∷◌ c s) =
    let rest = split_tab s in if nat_eq (code c) 9 then "" ∷ rest else prepend c rest

-- `p + s`, by clauses that compute on an open text
unfoldable pub concat : (p s : String) → String
concat Str.[] s = s
concat (Str.◌∷◌ c p) s = Str.◌∷◌ c (concat p s)

pub cut_prefix-concat : (p s : String) → cut_prefix p (concat p s) ≡ some s
unfolding cut_prefix concat
cut_prefix-concat Str.[] s = refl
cut_prefix-concat (Str.◌∷◌ c p) s =
    rw ((nat_eq_iff (code c) (code c)).1 refl) (cut_prefix-concat p s)

split : split_tab "R100\told\tnew" ≡ "R100" ∷ "old" ∷ "new" ∷ []
unfolding split_tab
split = refl
