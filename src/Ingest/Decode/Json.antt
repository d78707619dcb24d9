-- ===== src/Ingest/Decode/Json.antt =====
-- The values that json.Unmarshal makes for back/internal/ingest/decode/decode.go. A number is the text
-- that json.Marshal writes for it. A Go map is ranged over in any order: the order of the fields is the
-- order of the range.
use upcontrol.Prelude.{
  ℕ, suc, Bool, true, false, Option, none, some, List, [], ◌∷◌, if◌then◌else◌, is_some,
}
use upcontrol.Prelude.Bytes.{Bytes, codes}
use upcontrol.Ingest.Normalize.{bytes_eq}

mutual
  pub data Json : Type 0 where
    null : Json
    bool : Bool → Json
    num : Bytes → Json
    str : Bytes → Json
    arr : Items → Json
    obj : Fields → Json

  pub data Items : Type 0 where
    nil : Items
    item : Json → Items → Items

  pub data Fields : Type 0 where
    empty : Fields
    field : Bytes → Json → Fields → Fields

-- `m[k]`
unfoldable pub lookup : Fields → Bytes → Option Json
unfolding bytes_eq
lookup empty k = none
lookup (field j v m) k = if bytes_eq j k then some v else lookup m k

abbrev pub has_key : Fields → Bytes → Bool
has_key m k = is_some (lookup m k)

-- `len(m)`
unfoldable pub size : Fields → ℕ
size empty = 0
size (field k v m) = suc (size m)

-- A value unmarshalled into a map[string]any: an object, or null, which makes the nil map.
abbrev pub object_of : Json → Option Json
object_of (obj m) = some (obj m)
object_of null = some null
object_of _ = none

abbrev pub fields_of : Json → Fields
fields_of (obj m) = m
fields_of _ = empty

objects : Items → Option (List Json)
objects nil = some []
objects (item v vs) = elim (object_of v) [
  | none ↦ none
  | some m ↦ elim (objects vs) [ none ↦ none | some ms ↦ some (m ∷ ms) ]
]

-- The same into a []map[string]any.
unfoldable pub objects_of : Json → Option (List Json)
unfolding objects
objects_of (arr vs) = objects vs
objects_of null = some []
objects_of _ = none

-- The function toString of the decoder; `marshal` is json.Marshal.
unfoldable pub to_string : (Json → Bytes) → Json → Bytes
to_string marshal (str t) = t
to_string marshal (num t) = t
to_string marshal (bool true) = codes "true"
to_string marshal (bool false) = codes "false"
to_string marshal null = []
to_string marshal (arr vs) = marshal (arr vs)
to_string marshal (obj m) = marshal (obj m)

-- toString of `m[k]`, which is nil where the key is missing.
abbrev pub string_at : (Json → Bytes) → Fields → Bytes → Bytes
string_at marshal m k = elim (lookup m k) [ none ↦ [] | some v ↦ to_string marshal v ]
