-- ===== src/Delegate/Json.antt =====
-- What `json.loads` returns, and how the code looks into it. The decoder itself and `str()` of a
-- value that is no text are parameters of the code that uses them.
use josu.Common.{Bool, String, Option, none, some, ◌==◌, eq_string, if◌then◌else◌}

mutual
  pub data Json : Type 0 where
    null : Json
    bool : Bool → Json
    number : String → Json
    str : String → Json
    array : Items → Json
    object : Fields → Json

  pub data Items : Type 0 where
    nil : Items
    cons : Json → Items → Items

  pub data Fields : Type 0 where
    end : Fields
    field : String → Json → Fields → Fields

-- `value_error` is a plain ValueError, as that of an integer with too many digits.
pub data Decoded : Type 0 where
  decoded : Json → Decoded
  decode_error unicode_error value_error too_deep : Decoded

-- `value.get(key)` of an object
unfoldable pub get : String → Fields → Option Json
get key end = none
get key (field k v rest) = if k == key then some v else get key rest

-- `value[key]`: a KeyError of an object or a TypeError of anything else is `none`.
unfoldable pub subscript : Json → String → Option Json
unfolding get
subscript (object fs) key = get key fs
subscript _ key = none

-- `value[0]`: an IndexError, a KeyError or a TypeError is `none`, but a text has a first character.
unfoldable pub first : Json → Option Json
first (array (cons x xs)) = some x
first (str (String.◌∷◌ c s)) = some (str (String.◌∷◌ c String.[]))
first _ = none
