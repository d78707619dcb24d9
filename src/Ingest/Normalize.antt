-- ===== src/Ingest/Normalize.antt =====
-- The names of events, back/internal/ingest/normalize/normalize.go.
use upcontrol.Prelude.{
  ℕ, ◌+◌, Bool, true, false, ◌&&◌, ◌||◌, List, [], ◌∷◌, map, ◌==◌, if◌then◌else◌, is_empty, length,
}
use upcontrol.Prelude.Bytes.{
  Bytes, codes, newline, drop, has_prefix, index, contains, span, between,
}
pub mod Spelling

abbrev pub reserved_prefix : Bytes
reserved_prefix = codes "uc."

-- `name` is empty for an ordinary log line.
pub record Event : Type 0 where
  pub name : Bytes
  pub reserved : Bool

-- A space, a tab, a line feed or a carriage return.
unfoldable pub is_space : ℕ → Bool
is_space c = c == b' ' || c == 9 || c == newline || c == 13

-- The first loop of trimLower.
unfoldable pub trim_start : Bytes → Bytes
trim_start [] = []
trim_start (c ∷ s) = if is_space c then trim_start s else c ∷ s

-- Its second loop: a byte stays if it or one after it is no space.
unfoldable pub trim_end : Bytes → Bytes
trim_end [] = []
trim_end (c ∷ s) = let rest = trim_end s in if is_empty rest && is_space c then [] else c ∷ rest

unfoldable pub lower : ℕ → ℕ
lower c = if between b'A' b'Z' c then c + 32 else c

unfoldable pub trim_lower : Bytes → Bytes
trim_lower s = map lower (trim_end (trim_start s))

-- strings compare as bytes.
unfoldable pub bytes_eq : Bytes → Bytes → Bool
bytes_eq [] [] = true
bytes_eq [] (d ∷ t) = false
bytes_eq (c ∷ s) [] = false
bytes_eq (c ∷ s) (d ∷ t) = c == d && bytes_eq s t

-- The switch of Classify on the cleaned name.
unfoldable pub classify_clean : Bytes → Bool → Event
classify_clean n named =
    if has_prefix n reserved_prefix
    then record { name = []; reserved = true }
    else if named
    then record { name = n; reserved = false }
    else if has_prefix n (codes "deploy")
        || contains n (codes "deployment")
        || bytes_eq n (codes "install_verified")
    then record { name = n; reserved = false }
    else record { name = []; reserved = false }

unfoldable pub classify : Bytes → Bool → Event
classify name named = classify_clean (trim_lower name) named
