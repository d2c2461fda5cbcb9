-- ===== src/Config/Toml.antt =====
-- A parsed TOML document, as `tomllib` hands it over. Dates and times are one constructor: the code
-- modelled here never looks into them.
use Prim.Native.String.{String}
use josu.Common.{
  Bool, Option, none, some, List, [], ◌∷◌, eq_string, ◌==◌, if◌then◌else◌, get_or_else,
}
use josu.Common.Int.{ℤ, Float}

mutual
  pub data Toml : Type 0 where
    str : String → Toml
    int : ℤ → Toml
    float : Float → Toml
    bool : Bool → Toml
    datetime : Toml
    array : Items → Toml
    table : Fields → Toml

  pub data Items : Type 0 where
    nil : Items
    cons : Toml → Items → Items

  pub data Fields : Type 0 where
    end : Fields
    field : String → Toml → Fields → Fields

-- `table.get(key)`
unfoldable pub get : String → Fields → Option Toml
get key end = none
get key (field k v rest) = if k == key then some v else get key rest

unfoldable pub items : Items → List Toml
items nil = []
items (cons x xs) = x ∷ items xs

unfoldable pub keys : Fields → List Toml
keys end = []
keys (field k v rest) = str k ∷ keys rest

unfoldable pub characters : String → List Toml
characters String.[] = []
characters (String.◌∷◌ c s) = str (String.◌∷◌ c String.[]) ∷ characters s

-- `for entry in value`, where `none` is a `TypeError`
unfoldable pub iterate : Toml → Option (List Toml)
unfolding items keys characters
iterate (str s) = some (characters s)
iterate (array xs) = some (items xs)
iterate (table fs) = some (keys fs)
iterate _ = none

-- `value.get(key, default) if isinstance(value, dict) else default`
unfoldable pub get_in : Toml → String → Toml → Toml
unfolding get
get_in (table fs) key default = get_or_else (get key fs) default
get_in _ key default = default
