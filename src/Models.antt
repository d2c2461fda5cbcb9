-- ===== src/Models.antt =====
-- The models package: src/josu/models/curated.py. Memory is counted in tenths of a gigabyte.
use josu.Common.{
  ℕ, Bool, true, false, String, Option, none, some, ltb, ◌==◌, eq_string, if◌then◌else◌,
  get_or_else,
}

-- `CURATED_MODELS.get(model)`, as the memory that the model needs
unfoldable pub curated_min_ram : String → Option ℕ
curated_min_ram model = if model == "qwen2.5-coder:7b" then some 50 else none

-- The reason of a result: the text says no more than this.
pub data Reason : Type 0 where
  untested : String → Reason
  needs_ram : String → (needed available : ℕ) → Reason

pub record PreflightResult : Type 0 where
  pub ok : Bool
  pub model : String
  pub curated : Bool
  pub reason : Option Reason

-- `measured` is what psutil reports when the caller gives no figure.
unfoldable pub preflight_check : (measured : ℕ) → String → Option ℕ → PreflightResult
unfolding curated_min_ram
preflight_check measured model available_ram =
    let available = get_or_else available_ram measured in
    elim (curated_min_ram model) [
      | none ↦ record { ok = true; model = model; curated = false; reason = some (untested model) }
      | some needed ↦
          if ltb available needed
          then record {
            ok = false;
            model = model;
            curated = true;
            reason = some (needs_ram model needed available);
          }
          else record { ok = true; model = model; curated = true; reason = none }
    ]
