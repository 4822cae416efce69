-- ===== src/Approval/Json.antt =====
-- A value that `JSON.parse` returns: the input of a tool. An object has each key once.
use mossbridge.Prelude.{ℕ, Bool, Option, none, some, List, [], ◌∷◌, Text, eq_text, if◌then◌else◌}

mutual
  pub data Json : Type 0 where
    null : Json
    boolean : Bool → Json
    number : ℕ → Json
    text : Text → Json
    array : Items → Json
    object : Fields → Json

  pub data Items : Type 0 where
    end : Items
    item : Json → Items → Items

  pub data Fields : Type 0 where
    empty : Fields
    field : Text → Json → Fields → Fields

-- `value[key]`, none for `undefined`.
unfoldable pub field_of : Text → Fields → Option Json
field_of key empty = none
field_of key (field k v fs) = if eq_text k key then some v else field_of key fs

-- The strings of a list of strings; none if an entry is no string.
unfoldable pub strings_of : Items → Option (List Text)
strings_of end = some []
strings_of (item (text t) rest) = elim (strings_of rest) [ none ↦ none | some ts ↦ some (t ∷ ts) ]
strings_of (item _ rest) = none
