-- ===== src/Config/Settings.antt =====
-- src/josu/config/__init__.py: the numbers of the document. A finite float is whole ticks, of which a
-- second has a thousand; how `float` and `int` read a text, and which integers are too large for a
-- float, are parameters.
pub mod Limits
use Prim.Native.Nat.{◌/◌}
use josu.Common.{
  ℕ, zero, suc, ◌+◌, ◌*◌, Bool, true, false, not, ◌||◌, String, Option, none, some, List, [], ◌∷◌,
  ◌++◌, if◌then◌else◌,
}
use josu.Common.Int.{
  ℤ, pos, negsuc, Float, finite, inf, neg_inf, nan, is_nonpositive, is_finite, float_nonpositive,
}
use josu.Config.Toml.{Toml, str, int, float, bool, datetime, array, table, Fields, end, get, get_in}

abbrev pub ticks_per_second : ℕ
ticks_per_second = 1000

abbrev pub default_wall_clock_timeout_seconds : Float
default_wall_clock_timeout_seconds = finite (pos 1200000)

abbrev pub default_candidate_failure_threshold : ℤ
default_candidate_failure_threshold = pos 3

abbrev pub default_candidate_cooldown_seconds : Float
default_candidate_cooldown_seconds = finite (pos 60000)

-- What `float(value)` or `int(value)` gives: `not_a_number` is a TypeError or a ValueError.
pub data Converted (A : Type 0) : Type 0 where
  converted : A → Converted A
  not_a_number overflow : Converted A

-- A number of seconds in ticks.
abbrev in_ticks : ℤ → ℤ
in_ticks (pos n) = pos (n * ticks_per_second)
in_ticks (negsuc n) = negsuc (n * ticks_per_second + 999)

abbrev negative : ℕ → ℤ
negative zero = pos 0
negative (suc n) = negsuc n

-- `int(x)` of a finite float: the whole seconds, towards 0.
abbrev whole_seconds : ℤ → ℤ
whole_seconds (pos n) = pos (n / ticks_per_second)
whole_seconds (negsuc n) = negative (suc n / ticks_per_second)

abbrev int_of_bool : Bool → ℤ
int_of_bool true = pos 1
int_of_bool false = pos 0

abbrev parsed : {A : Type 0} → Option A → Converted A
parsed none = not_a_number
parsed (some a) = converted a

pub data SettingWarning : Type 0 where
  not_number not_positive : (key : String) → SettingWarning

-- The keys that a section of the document has: none if it is no table.
abbrev pub section_of : String → Toml → Fields
section_of name document = elim (get_in document name (table end)) [ table fs ↦ fs | _ ↦ end ]

module _ (too_large : ℤ → Bool) (parse_float : String → Option Float) where
  -- `float(value)`
  unfoldable pub to_float : Toml → Converted Float
  to_float (float x) = converted x
  to_float (int n) = if too_large n then overflow else converted (finite (in_ticks n))
  to_float (bool b) = converted (finite (in_ticks (int_of_bool b)))
  to_float (str s) = parsed (parse_float s)
  to_float datetime = not_a_number
  to_float (array xs) = not_a_number
  to_float (table fs) = not_a_number

  -- A number of seconds: the value or the default, with the warnings; `none` is the OverflowError.
  checked_seconds : String → Float → Converted Float → Option (Float × List SettingWarning)
  checked_seconds key default (converted x) =
      if not (is_finite x) || float_nonpositive x
      then some (default, not_positive key ∷ [])
      else some (x, [])
  checked_seconds key default not_a_number = some (default, not_number key ∷ [])
  checked_seconds key default overflow = none

  unfoldable pub load_seconds : String → Float → Fields → Option (Float × List SettingWarning)
  unfolding checked_seconds
  load_seconds key default section = elim (get key section) [
    | none ↦ some (default, [])
    | some value ↦ checked_seconds key default (to_float value)
  ]

  -- `_load_wall_clock_timeout_seconds`
  abbrev pub load_wall_clock_timeout_seconds : Toml → Option (Float × List SettingWarning)
  load_wall_clock_timeout_seconds document =
      load_seconds "wall_clock_timeout_seconds" default_wall_clock_timeout_seconds
        (section_of "orchestrator" document)

module _ (parse_int : String → Option ℤ) where
  -- `int(value)`
  unfoldable pub to_int : Toml → Converted ℤ
  to_int (int n) = converted n
  to_int (float (finite x)) = converted (whole_seconds x)
  to_int (float nan) = not_a_number
  to_int (float inf) = overflow
  to_int (float neg_inf) = overflow
  to_int (bool b) = converted (int_of_bool b)
  to_int (str s) = parsed (parse_int s)
  to_int datetime = not_a_number
  to_int (array xs) = not_a_number
  to_int (table fs) = not_a_number

  checked_threshold : Converted ℤ → ℤ × List SettingWarning
  checked_threshold (converted n) =
      if is_nonpositive n
      then (default_candidate_failure_threshold, not_positive "failure_threshold" ∷ [])
      else (n, [])
  checked_threshold not_a_number =
      (default_candidate_failure_threshold, not_number "failure_threshold" ∷ [])
  checked_threshold overflow =
      (default_candidate_failure_threshold, not_number "failure_threshold" ∷ [])

  unfoldable pub load_threshold : Fields → ℤ × List SettingWarning
  unfolding checked_threshold
  load_threshold section = elim (get "failure_threshold" section) [
    | none ↦ (default_candidate_failure_threshold, [])
    | some value ↦ checked_threshold (to_int value)
  ]

-- `_load_delegate_cooldown_config`
unfoldable pub load_delegate_cooldown_config :
    (too_large : ℤ → Bool) (parse_float : String → Option Float) (parse_int : String → Option ℤ)
    → Toml
    → Option (ℤ × (Float × List SettingWarning))
load_delegate_cooldown_config too_large parse_float parse_int document =
    let section = section_of "delegate" document in
    let (threshold, warnings) = load_threshold parse_int section in
    elim (load_seconds too_large parse_float "cooldown_seconds" default_candidate_cooldown_seconds
      section) [
        | none ↦ none
        | some (seconds, more) ↦ some (threshold, (seconds, warnings ++ more))
      ]
