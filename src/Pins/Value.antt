-- ===== src/Pins/Value.antt =====
-- What JSON.parse returns, and the reading of a key: `undefined`, where there is none, is `none`.
use yurt_playground.Base.{Bool, true, false, Option, none, some, Text, if◌then◌else◌, text_eq, ℤ}

-- A number is an integer, or not one.
mutual
  pub data Json : Type 0 where
    null fraction : Json
    boolean : Bool → Json
    integer : ℤ → Json
    string : Text → Json
    array : Items → Json
    object : Fields → Json

  pub data Items : Type 0 where
    no_items : Items
    item : Json → Items → Items

  pub data Fields : Type 0 where
    no_fields : Fields
    field : Text → Json → Fields → Fields

abbrev pub find_field : Text → Fields → Option Json
find_field key no_fields = none
find_field key (field name value fields) =
    if text_eq name key then some value else find_field key fields

-- `(value ?? {})[key]`: only an object has the keys that are read.
abbrev pub get : Text → Option Json → Option Json
get key (some (object fields)) = find_field key fields
get key _ = none

-- `value !== null && typeof value === "object"`.
abbrev pub is_object : Option Json → Bool
is_object (some (object _)) = true
is_object (some (array _)) = true
is_object _ = false

abbrev pub is_text : Option Json → Bool
is_text (some (string _)) = true
is_text _ = false
