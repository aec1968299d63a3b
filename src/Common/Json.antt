-- ===== src/Common/Json.antt =====
-- JSON values, as the program passes them on: results, audit details and message payloads.
use gptlink.Prelude.{
  Bool, Option, String, String_eq, false, if◌then◌else◌, none, some, true, ℤ, ◌==◌,
}

mutual
  pub data Json : Type 0 where
    null : Json
    boolean : Bool → Json
    number : ℤ → Json
    text : String → Json
    array : Items → Json
    object : Fields → Json

  pub data Items : Type 0 where
    nil : Items
    cons : Json → Items → Items

  pub data Fields : Type 0 where
    end : Fields
    field : String → Json → Fields → Fields

-- the value of a key; an object has a key once
abbrev pub field_of : String → Fields → Option Json
field_of k end = none
field_of k (field j v fs) = if j == k then some v else field_of k fs

-- v[k] of a value of JSON, which is none where it raises
abbrev pub get_key : String → Json → Option Json
get_key k (object fs) = field_of k fs
get_key k _ = none

-- v[0]
abbrev pub get_first : Json → Option Json
get_first (array (cons v vs)) = some v
get_first _ = none

abbrev pub is_true : Option Json → Bool
is_true (some (boolean b)) = b
is_true _ = false

-- an object or an array has no hash, so that testing it in a set raises TypeError
abbrev pub is_hashable : Option Json → Bool
is_hashable (some (array xs)) = false
is_hashable (some (object fs)) = false
is_hashable _ = true

abbrev pub is_text_of : (String → Bool) → Option Json → Bool
is_text_of p (some (text s)) = p s
is_text_of p _ = false
