-- ===== src/TargetKey.antt =====
-- The identity of a probe's target, back/internal/targetkey/targetkey.go. The texts are ASCII.
use upcontrol.Prelude.{
  ℕ, suc, Bool, true, false, ◌&&◌, ◌||◌, not, Option, none, some, List, [], ◌∷◌, ◌++◌, map, ◌==◌,
  if◌then◌else◌, is_empty, length,
}
use upcontrol.Prelude.Bytes.{
  Bytes, codes, trim_space, take, drop, has_prefix, index, contains, between,
}
use upcontrol.Ingest.Normalize.{lower, bytes_eq}
pub mod Separate

abbrev pub sep : ℕ
sep = 31

-- Neither the separator nor a zero byte.
unfoldable pub stays : ℕ → Bool
stays c = not (c == sep) && not (c == 0)

unfoldable pub clean : Bytes → Bytes
unfolding stays
clean [] = []
clean (c ∷ s) = let rest = clean s in if stays c then c ∷ rest else rest

-- strings.Join with the separator.
unfoldable pub join_clean : List Bytes → Bytes
join_clean [] = []
join_clean (p ∷ []) = p
join_clean (p ∷ q ∷ ps) = p ++ (sep ∷ join_clean (q ∷ ps))

unfoldable pub join : List Bytes → Bytes
unfolding join_clean clean
join parts = join_clean (map clean parts)

-- What url.Parse returns: the fields and methods that NormalizeURL reads.
pub record Url : Type 0 where
  pub scheme : Bytes
  pub host : Bytes
  pub hostname : Bytes
  pub port : Bytes
  pub path : Bytes
  pub raw_query : Bytes

pub data Normalized : Type 0 where
  normalized : Bytes → Normalized
  empty_url bad_url no_host : Normalized

abbrev pub scheme_mark : Bytes
scheme_mark = codes "://"

unfoldable pub first_byte : ℕ → Bool
first_byte c = between b'a' b'z' c

unfoldable pub later_byte : ℕ → Bool
unfolding first_byte
later_byte c = first_byte c || between b'0' b'9' c || c == b'+' || c == b'-' || c == b'.'

unfoldable pub all_later : Bytes → Bool
unfolding later_byte
all_later [] = true
all_later (c ∷ s) = later_byte c && all_later s

unfoldable pub is_scheme : Bytes → Bool
unfolding first_byte all_later
is_scheme [] = false
is_scheme (c ∷ s) = first_byte c && all_later s

unfoldable pub has_scheme : Bytes → Bool
unfolding index take lower is_scheme
has_scheme s = elim (index s scheme_mark) [
  | none ↦ false
  | some i ↦ is_scheme (map lower (take i s))
]

-- strings.TrimPrefix
unfoldable pub trim_prefix : Bytes → Bytes → Bytes
unfolding has_prefix drop
trim_prefix s p = if has_prefix s p then drop (length p) s else s

-- net.JoinHostPort
unfoldable pub join_host_port : Bytes → Bytes → Bytes
unfolding contains
join_host_port host port =
    if contains host (codes ":") then b'[' ∷ host ++ (codes "]:" ++ port) else host ++ (b':' ∷ port)

unfoldable pub is_default_port : Bytes → Bytes → Bool
unfolding bytes_eq
is_default_port scheme port =
    (bytes_eq scheme (codes "https") && bytes_eq port (codes "443"))
    || (bytes_eq scheme (codes "http") && bytes_eq port (codes "80"))

unfoldable pub host_part : Bytes → Bytes → Bytes → Bytes
unfolding is_default_port join_host_port
host_part scheme host port =
    if is_empty port || is_default_port scheme port then host else join_host_port host port

unfoldable pub path_part : Url → Bytes
unfolding bytes_eq
path_part u = if bytes_eq u.path (codes "/") && is_empty u.raw_query then [] else u.path

-- `parse` is url.Parse, and `to_ascii` is ToASCII of idna.Lookup; `none` is an error.
module _ (parse : Bytes → Option Url) (to_ascii : Bytes → Option Bytes) where
  unfoldable pub ascii_host : Bytes → Bytes
  unfolding lower
  ascii_host host = elim (to_ascii host) [ none ↦ host | some a ↦ map lower a ]

  unfoldable pub write_url : Url → Normalized
  unfolding ascii_host host_part path_part trim_prefix lower
  write_url u =
      let scheme = map lower u.scheme in
      let host = trim_prefix (ascii_host (map lower u.hostname)) (codes "www.") in
      let out = scheme ++ (codes "://" ++ (host_part scheme host u.port ++ path_part u)) in
      if is_empty u.host || is_empty u.hostname
      then no_host
      else normalized (if is_empty u.raw_query then out else out ++ (b'?' ∷ u.raw_query))

  unfoldable pub with_scheme : Bytes → Bytes
  unfolding has_scheme
  with_scheme s = if has_scheme s then s else codes "https://" ++ s

  unfoldable pub normalize_url : Bytes → Normalized
  unfolding trim_space with_scheme write_url
  normalize_url raw =
      let s = trim_space raw in
      if is_empty s
      then empty_url
      else elim (parse (with_scheme s)) [ none ↦ bad_url | some u ↦ write_url u ]

  -- The URL that stands in the key: the raw spelling, where it cannot be normalized.
  unfoldable pub key_url : Bytes → Bytes
  unfolding normalize_url
  key_url raw = elim (normalize_url raw) [ normalized n ↦ n | _ ↦ raw ]

  unfoldable pub website : Bytes → Bytes → Bytes
  unfolding key_url
  website raw keyword = join (codes "website" ∷ key_url raw ∷ keyword ∷ [])

unfoldable pub heartbeat : Bytes → Bytes
unfolding lower
heartbeat id = join (codes "heartbeat" ∷ map lower id ∷ [])
