-- ===== src/Ingest/Scrub/Secrets.antt =====
-- The matchers for keys, tokens and passwords of back/internal/ingest/scrub/scrub.go. A matcher of
-- the source takes the line and an index i; here it takes the byte before i, if there is one, and the
-- rest of the line from i on, and its end is counted from i. The scan calls it at a byte of the line.
use upcontrol.Prelude.{
  ℕ, ◌+◌, ◌-◌, Bool, false, ◌&&◌, ◌||◌, not, Option, none, some, List, [], ◌∷◌, ltb, leb, ◌==◌,
  if◌then◌else◌, length,
}
use upcontrol.Prelude.Bytes.{
  Bytes, codes, newline, take, drop, has_prefix, index_byte, index, contains, span, between,
}

abbrev pub carriage_return : ℕ
carriage_return = 13

unfoldable pub is_letter : ℕ → Bool
is_letter c = between b'a' b'z' c || between b'A' b'Z' c

unfoldable pub is_digit : ℕ → Bool
is_digit c = between b'0' b'9' c

unfoldable pub is_token_byte : ℕ → Bool
unfolding is_letter is_digit
is_token_byte c = is_letter c || is_digit c || c == b'_' || c == b'-'

unfoldable pub is_b64 : ℕ → Bool
unfolding is_letter is_digit
is_b64 c = is_letter c || is_digit c || c == b'_' || c == b'-'

abbrev pub pem_begin : Bytes
pem_begin = codes "-----BEGIN "

abbrev pub pem_end : Bytes
pem_end = codes "-----END "

abbrev pub private_key : Bytes
private_key = codes "PRIVATE KEY"

-- The header's line names a private key.
unfoldable pub header_line_private : Bytes → Bool
unfolding index_byte contains take
header_line_private s = elim (index_byte s newline) [
  | none ↦ false
  | some nl ↦ contains (take nl s) private_key
]

-- The end of the line that starts at `e`, or of the text.
unfoldable pub line_end : Bytes → ℕ → ℕ
unfolding index_byte drop
line_end s e = elim (index_byte (drop e s) newline) [ none ↦ length s | some nl ↦ e + nl ]

unfoldable pub pem_matcher : Option ℕ → Bytes → Option ℕ
unfolding has_prefix contains index header_line_private line_end
pem_matcher _ s =
    if not (has_prefix s pem_begin)
    then none
    else if not (contains s private_key) && not (header_line_private s)
    then none
    else elim (index s pem_end) [ none ↦ none | some e ↦ some (line_end s e) ]

-- A prefix of length `n`, then the run of bytes that `p` accepts, of at least `least` bytes.
abbrev pub tail_after : ℕ → (ℕ → Bool) → ℕ → Bytes → Option ℕ
tail_after n p least s =
    if ltb (span p (drop n s)) least then none else some (n + span p (drop n s))

unfoldable pub in_bearer : ℕ → Bool
in_bearer c =
    not (c == b' ')
    && not (c == newline)
    && not (c == carriage_return)
    && not (c == b'"')
    && not (c == b'\'')
    && not (c == b',')

unfoldable pub bearer_matcher : Option ℕ → Bytes → Option ℕ
unfolding has_prefix span drop in_bearer
bearer_matcher _ s =
    if not (has_prefix s (codes "Bearer ")) then none else tail_after 7 in_bearer 12 s

unfoldable pub prefix_token_fn : Bytes → ℕ → Option ℕ → Bytes → Option ℕ
unfolding has_prefix span drop is_token_byte
prefix_token_fn prefix min_tail _ s =
    if not (has_prefix s prefix) then none else tail_after (length prefix) is_token_byte min_tail s

abbrev pub github_prefixes : List Bytes
github_prefixes =
    codes "ghp_"
    ∷ codes "gho_"
    ∷ codes "ghu_"
    ∷ codes "ghs_"
    ∷ codes "ghr_"
    ∷ codes "github_pat_"
    ∷ []

-- One round of the loop over the prefixes: the prefix counts towards the 20 bytes.
unfoldable pub github_token : Bytes → Bytes → Option ℕ
unfolding has_prefix span drop is_token_byte
github_token s p =
    if has_prefix s p && leb 20 (length p + span is_token_byte (drop (length p) s))
    then some (length p + span is_token_byte (drop (length p) s))
    else none

-- The first of the texts at which `fn` succeeds.
unfoldable pub first_of : (Bytes → Option ℕ) → List Bytes → Option ℕ
first_of fn [] = none
first_of fn (p ∷ ps) = elim (fn p) [ none ↦ first_of fn ps | some e ↦ some e ]

unfoldable pub github_any_matcher : Option ℕ → Bytes → Option ℕ
unfolding first_of github_token
github_any_matcher _ s = first_of (github_token s) github_prefixes

abbrev pub slack_prefixes : List Bytes
slack_prefixes = codes "xoxp-" ∷ codes "xoxb-" ∷ codes "xoxa-" ∷ codes "xoxs-" ∷ []

unfoldable pub in_slack : ℕ → Bool
unfolding is_token_byte
in_slack c = is_token_byte c || c == b'.'

unfoldable pub slack_token : Bytes → Bytes → Option ℕ
unfolding has_prefix span drop in_slack
slack_token s p =
    if has_prefix s p && leb 10 (span in_slack (drop (length p) s))
    then some (length p + span in_slack (drop (length p) s))
    else none

unfoldable pub slack_any_matcher : Option ℕ → Bytes → Option ℕ
unfolding first_of slack_token
slack_any_matcher _ s = first_of (slack_token s) slack_prefixes

-- `s[i]` passes the test, and `i > 0 && p(s[i-1])`.
abbrev pub starts_with : (ℕ → Bool) → Bytes → Bool
starts_with p [] = false
starts_with p (c ∷ s) = p c

abbrev pub follows : (ℕ → Bool) → Option ℕ → Bool
follows p none = false
follows p (some c) = p c

unfoldable pub in_jwt : ℕ → Bool
unfolding is_b64
in_jwt c = is_b64 c || c == b'.'

unfoldable pub count_byte : ℕ → Bytes → ℕ
count_byte d [] = 0
count_byte d (c ∷ s) = (if c == d then 1 else 0) + count_byte d s

-- The three parts of the run `t` are at least 8 bytes long: `d1` and `d2` are its dots.
unfoldable pub long_parts : Bytes → Bool
unfolding index_byte drop
long_parts t = elim (index_byte t b'.') [
  | none ↦ false
  | some d1 ↦ elim (index_byte (drop (d1 + 1) t) b'.') [
    | none ↦ false
    | some more ↦
        let d2 = more + d1 + 1 in not (ltb d1 8 || ltb (d2 - d1 - 1) 8 || ltb (length t - d2 - 1) 8)
  ]
]

unfoldable pub jwt_matcher : Option ℕ → Bytes → Option ℕ
unfolding is_b64 in_jwt span count_byte take long_parts
jwt_matcher before s =
    let j = span in_jwt s in
    if not (starts_with is_b64 s)
    then none
    else if follows is_b64 before
    then none
    else if not (count_byte b'.' (take j s) == 2)
    then none
    else if long_parts (take j s)
    then some j
    else none

abbrev pub schemes : List Bytes
schemes =
    codes "postgres://"
    ∷ codes "postgresql://"
    ∷ codes "mysql://"
    ∷ codes "mongodb://"
    ∷ codes "redis://"
    ∷ []

-- The userinfo ends before the first @ that follows the first colon.
unfoldable pub userinfo_end : Bytes → Option ℕ
unfolding index_byte drop
userinfo_end rest = elim (index_byte rest b':') [
  | none ↦ none
  | some colon ↦ elim (index_byte (drop colon rest) b'@') [
    | none ↦ none
    | some at ↦ some (colon + at)
  ]
]

unfoldable pub conn_str : Bytes → Bytes → Option ℕ
unfolding has_prefix drop userinfo_end
conn_str s sch =
    if has_prefix s sch
    then elim (userinfo_end (drop (length sch) s)) [ none ↦ none | some e ↦ some (length sch + e) ]
    else none

unfoldable pub conn_str_matcher : Option ℕ → Bytes → Option ℕ
unfolding first_of conn_str
conn_str_matcher _ s = first_of (conn_str s) schemes

unfoldable pub in_session : ℕ → Bool
in_session c =
    not (c == b' ')
    && not (c == b';')
    && not (c == b'&')
    && not (c == newline)
    && not (c == b'"')
    && not (c == b'\'')

unfoldable pub session_eq_matcher : Option ℕ → Bytes → Option ℕ
unfolding has_prefix span drop in_session
session_eq_matcher _ s =
    if not (has_prefix s (codes "session=")) then none else tail_after 8 in_session 8 s

unfoldable pub in_cookie : ℕ → Bool
in_cookie c = not (c == b';') && not (c == newline) && not (c == carriage_return) && not (c == b'"')

unfoldable pub cookie_set_matcher : Option ℕ → Bytes → Option ℕ
unfolding has_prefix index_byte span drop in_cookie
cookie_set_matcher _ s =
    if not (has_prefix s (codes "Set-Cookie: ")) then none else elim (index_byte (drop 12 s) b'=') [
      | none ↦ none
      | some eq ↦ tail_after (12 + eq + 1) in_cookie 8 s
    ]
