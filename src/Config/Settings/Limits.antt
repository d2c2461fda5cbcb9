-- ===== src/Config/Settings/Limits.antt =====
-- The numbers that a load gives are within their limits.
use josu.Common.{
  ℕ, suc, zero, subst, Bool, String, Option, some, List, [], ◌∷◌, ◌≡◌, refl, arith, inl, inr,
  Option-cases,
}
use josu.Common.Int.{ℤ, pos, negsuc, Float, finite, inf, neg_inf, nan}
use josu.Config.Toml.{Toml, Fields, get}
use josu.Config.Settings.{
  Converted, converted, not_a_number, overflow, SettingWarning, not_number, not_positive,
  checked_seconds, load_seconds, to_float, checked_threshold, load_threshold, to_int, section_of,
  load_delegate_cooldown_config, default_candidate_cooldown_seconds,
}

-- A finite number of ticks that is more than 0.
abbrev pub IsPositiveFinite : Float → Type 0
IsPositiveFinite x = (n : ℕ) × (x ≡ finite (pos (suc n)))

abbrev pub IsPositive : ℤ → Type 0
IsPositive x = (n : ℕ) × (x ≡ pos (suc n))

moved :
    (a x : Float) (us ws : List SettingWarning)
    → ◌≡◌ {A = Option (Float × List SettingWarning)} (some (a, us)) (some (x, ws))
    → IsPositiveFinite a
    → IsPositiveFinite x
moved a x us ws h a_ok = let same : a ≡ x = cc in subst IsPositiveFinite same a_ok

module _ (too_large : ℤ → Bool) (parse_float : String → Option Float) (key : String)
    (default : Float) (default_ok : IsPositiveFinite default) where
  checked_seconds-IsPositiveFinite :
      (c : Converted Float) (x : Float) (ws : List SettingWarning)
      → checked_seconds too_large parse_float key default c ≡ some (x, ws)
      → IsPositiveFinite x
  unfolding checked_seconds
  checked_seconds-IsPositiveFinite (converted (finite (pos (suc n)))) x ws h =
      moved (finite (pos (suc n))) x [] ws h (n, refl)
  checked_seconds-IsPositiveFinite (converted (finite (pos zero))) x ws h =
      moved default x (not_positive key ∷ []) ws h default_ok
  checked_seconds-IsPositiveFinite (converted (finite (negsuc n))) x ws h =
      moved default x (not_positive key ∷ []) ws h default_ok
  checked_seconds-IsPositiveFinite (converted inf) x ws h =
      moved default x (not_positive key ∷ []) ws h default_ok
  checked_seconds-IsPositiveFinite (converted neg_inf) x ws h =
      moved default x (not_positive key ∷ []) ws h default_ok
  checked_seconds-IsPositiveFinite (converted nan) x ws h =
      moved default x (not_positive key ∷ []) ws h default_ok
  checked_seconds-IsPositiveFinite not_a_number x ws h =
      moved default x (not_number key ∷ []) ws h default_ok
  checked_seconds-IsPositiveFinite overflow x ws h = cc

  pub load_seconds-IsPositiveFinite :
      (section : Fields) (x : Float) (ws : List SettingWarning)
      → load_seconds too_large parse_float key default section ≡ some (x, ws)
      → IsPositiveFinite x
  unfolding load_seconds
  load_seconds-IsPositiveFinite section x ws h = elim (Option-cases (get key section)) [
    | inl missing ↦ moved default x [] ws (grind arith) default_ok
    | inr (value, found) ↦
        checked_seconds-IsPositiveFinite (to_float too_large parse_float value) x ws (grind arith)
  ]

checked_threshold-IsPositive :
    (parse_int : String → Option ℤ) (c : Converted ℤ) → IsPositive (checked_threshold parse_int c).0
unfolding checked_threshold
checked_threshold-IsPositive parse_int (converted (pos (suc n))) = (n, refl)
checked_threshold-IsPositive parse_int (converted (pos zero)) = (2, refl)
checked_threshold-IsPositive parse_int (converted (negsuc n)) = (2, refl)
checked_threshold-IsPositive parse_int not_a_number = (2, refl)
checked_threshold-IsPositive parse_int overflow = (2, refl)

pub load_threshold-IsPositive :
    (parse_int : String → Option ℤ) (section : Fields)
    → IsPositive (load_threshold parse_int section).0
unfolding load_threshold
load_threshold-IsPositive parse_int section =
    elim (Option-cases (get "failure_threshold" section)) [
      | inl missing ↦ rw (load_threshold, missing) (2, refl)
      | inr (value, found) ↦
          rw (load_threshold, found)
            (checked_threshold-IsPositive parse_int (to_int parse_int value))
    ]

pub load_delegate_cooldown_config-IsPositive :
    (too_large : ℤ → Bool) (parse_float : String → Option Float) (parse_int : String → Option ℤ)
    (document : Toml) (threshold : ℤ) (seconds : Float) (ws : List SettingWarning)
    → load_delegate_cooldown_config too_large parse_float parse_int document
      ≡ some (threshold, (seconds, ws))
    → IsPositive threshold × IsPositiveFinite seconds
unfolding load_delegate_cooldown_config
load_delegate_cooldown_config-IsPositive too_large parse_float parse_int document threshold seconds
      ws h =
    let section = section_of "delegate" document in
    elim (Option-cases (
      load_seconds too_large parse_float "cooldown_seconds" default_candidate_cooldown_seconds
        section)) [
          | inl failed ↦ grind arith
          | inr ((x, more), found) ↦
              let same : (load_threshold parse_int section).0 ≡ threshold = grind arith in
              let same_seconds : x ≡ seconds = grind arith in
              (
                subst IsPositive same (load_threshold-IsPositive parse_int section),
                subst IsPositiveFinite same_seconds (
                    load_seconds-IsPositiveFinite too_large parse_float "cooldown_seconds"
                      default_candidate_cooldown_seconds (59999, refl) section x more found),
              )
        ]
