-- ===== src/Ingest/Scrub/Lengths.antt =====
-- Where a matcher of back/internal/ingest/scrub/scrub.go succeeds, and how far its match reaches.
use upcontrol.Prelude.{
  ℕ, suc, ◌+◌, ◌≤◌, ◌<◌, ◌≡◌, Bool, true, false, Option, none, some, List, [], ◌∷◌, arith, inl, inr,
  ◌==◌, length, All, if◌then◌else◌, not, ◌&&◌, ==_iff, ◌≢◌, ◌++◌, sym, zero, refl, ◌||◌, Bool-cases,
  Option-cases,
}
use upcontrol.Prelude.Bytes.{
  Bytes, codes, newline, drop, has_prefix, index_byte, index, span, contains, has_prefix-le-length,
  index_byte-lt-length, index-le-length, span-le-length, length-drop,
}
use upcontrol.Ingest.Scrub.Secrets.{
  is_token_byte, in_bearer, in_session, in_cookie, in_jwt, pem_begin, pem_end, private_key,
  header_line_private, line_end, tail_after, starts_with, pem_matcher, bearer_matcher,
  prefix_token_fn, github_token, slack_token, in_slack, github_prefixes, slack_prefixes, schemes,
  github_any_matcher, slack_any_matcher, jwt_matcher, first_of, conn_str, userinfo_end,
  conn_str_matcher, session_eq_matcher, cookie_set_matcher, is_b64, is_digit,
}
use upcontrol.Ingest.Scrub.Personal.{
  card_luhn_matcher, email_matcher, is_email_local, in_card, in_host,
}
use upcontrol.Ingest.Scrub.Scan.{matchers}

-- A match of `fn` begins with a byte that passes `starts`, takes a byte at least, and ends in the
-- line.
abbrev pub IsFair : (Option ℕ → Bytes → Option ℕ) → (ℕ → Bool) → Type 0
IsFair fn starts =
    (before : Option ℕ) (c : ℕ) (s : Bytes) (e : ℕ)
    → fn before (c ∷ s) ≡ some e
    → (starts c ≡ true) × (0 < e) × (e ≤ length (c ∷ s))

tail_after_bounds :
    (n : ℕ) (p : ℕ → Bool) (least : ℕ) (s : Bytes) (e : ℕ)
    → n ≤ length s
    → tail_after n p least s ≡ some e
    → (n ≤ e) × (e ≤ length s)
tail_after_bounds n p least s e h m = ground (arith, span-le-length p (drop n s), length-drop n s)

bearer_matcher-IsFair : IsFair bearer_matcher (λ c. c == b'B')
unfolding bearer_matcher has_prefix
bearer_matcher-IsFair before c s e m = ground (
  arith,
  has_prefix-le-length (c ∷ s) (codes "Bearer "),
  tail_after_bounds 7 in_bearer 12 (c ∷ s) e,
)

prefix_token_fn-IsFair :
    (d : ℕ) (p : Bytes) (least : ℕ) → IsFair (prefix_token_fn (d ∷ p) least) (λ c. c == d)
unfolding prefix_token_fn has_prefix
prefix_token_fn-IsFair d p least before c s e m = ground (
  arith,
  has_prefix-le-length (c ∷ s) (d ∷ p),
  tail_after_bounds (length (d ∷ p)) is_token_byte least (c ∷ s) e,
)

session_eq_matcher-IsFair : IsFair session_eq_matcher (λ c. c == b's')
unfolding session_eq_matcher has_prefix
session_eq_matcher-IsFair before c s e m = ground (
  arith,
  has_prefix-le-length (c ∷ s) (codes "session="),
  tail_after_bounds 8 in_session 8 (c ∷ s) e,
)

cookie_set_matcher-IsFair : IsFair cookie_set_matcher (λ c. c == b'S')
unfolding cookie_set_matcher has_prefix
cookie_set_matcher-IsFair before c s e m = elim (Option-cases (index_byte (drop 12 (c ∷ s)) b'=')) [
  | inl none_found ↦ ground arith
  | inr (eq, found) ↦ ground (
    arith,
    has_prefix-le-length (c ∷ s) (codes "Set-Cookie: "),
    index_byte-lt-length (drop 12 (c ∷ s)) b'=' found,
    length-drop 12 (c ∷ s),
    tail_after_bounds (12 + eq + 1) in_cookie 8 (c ∷ s) e,
  )
]

has_prefix-head : (c d : ℕ) (s p : Bytes) → has_prefix (c ∷ s) (d ∷ p) ≡ true → (c == d) ≡ true
unfolding has_prefix
has_prefix-head c d s p h = ground arith

-- Texts that differ after `w` are not both prefixes of `s`.
has_prefix-apart :
    (w s p q : Bytes) (x y : ℕ)
    → x ≢ y
    → has_prefix s (w ++ x ∷ p) ≡ true
    → has_prefix s (w ++ y ∷ q) ≡ true
    → ⊥
unfolding has_prefix
has_prefix-apart [] [] p q x y n h k = cc
has_prefix-apart [] (c ∷ s) p q x y n h k = ground arith
has_prefix-apart (d ∷ w) [] p q x y n h k = cc
has_prefix-apart (d ∷ w) (c ∷ s) p q x y n h k = ground (arith, has_prefix-apart w s p q x y n)

index-zero : (s p : Bytes) → index s p ≡ some 0 → has_prefix s p ≡ true
unfolding index
index-zero [] p h = ground arith
index-zero (c ∷ s) p h = elim (Option-cases (index s p)) [
  | inl f ↦ ground arith
  | inr (k, found) ↦ ground arith
]

-- A marker for the end does not begin where one for the beginning does.
index-pem_end_pos :
    (s : Bytes) (k : ℕ) → has_prefix s pem_begin ≡ true → index s pem_end ≡ some k → 0 < k
index-pem_end_pos s zero h m = absurd (
    has_prefix-apart (codes "-----") s (codes "EGIN ") (codes "ND ") b'B' b'E' (omega arith) h
      (index-zero s pem_end m))
index-pem_end_pos s (suc k) h m = omega arith

line_end_bounds :
    (s : Bytes) (e : ℕ) → e < length s → (e ≤ line_end s e) × (line_end s e ≤ length s)
unfolding line_end
line_end_bounds s e h = elim (Option-cases (index_byte (drop e s) newline)) [
  | inl f ↦ ground arith
  | inr (nl, found) ↦ ground (arith, index_byte-lt-length (drop e s) newline found, length-drop e s)
]

-- The guards of the matcher, read backwards.
pem_found :
    (header one other : Bool) (at : Option ℕ) (finish : ℕ → ℕ) (e : ℕ)
    → (if not header
        then none
        else if not one && not other
        then none
        else elim at [ none ↦ none | some k ↦ some (finish k) ])
      ≡ some e
    → (k : ℕ) × (header ≡ true) × (at ≡ some k) × (finish k ≡ e)
pem_found false one other at finish e m = cc
pem_found true false false at finish e m = cc
pem_found true one other none finish e m = ground arith
pem_found true true other (some k) finish e m = (k, refl, refl, cc)
pem_found true false true (some k) finish e m = (k, refl, refl, cc)

pem_matcher-IsFair : IsFair pem_matcher (λ c. c == b'-')
unfolding pem_matcher
pem_matcher-IsFair before c s e m =
    let (k, start, found, ends) =
      pem_found (has_prefix (c ∷ s) pem_begin) (contains (c ∷ s) private_key)
        (header_line_private (c ∷ s)) (index (c ∷ s) pem_end) (line_end (c ∷ s)) e m in
    let shorter : k + length pem_end ≤ length (c ∷ s) = index-le-length (c ∷ s) pem_end found in
    let some_byte : 0 < k = index-pem_end_pos (c ∷ s) k start found in
    let (from, to) = line_end_bounds (c ∷ s) k (omega arith) in
    (has_prefix-head c b'-' s (codes "----BEGIN ") start, omega arith, omega arith)

github_token-IsFair : (p : Bytes) → IsFair (λ _ s. github_token s (b'g' ∷ p)) (λ c. c == b'g')
unfolding github_token has_prefix
github_token-IsFair p before c s e m = ground (
  arith,
  has_prefix-le-length (c ∷ s) (b'g' ∷ p),
  length-drop (length (b'g' ∷ p)) (c ∷ s),
  span-le-length is_token_byte (drop (length (b'g' ∷ p)) (c ∷ s)),
)

slack_token-IsFair : (p : Bytes) → IsFair (λ _ s. slack_token s (b'x' ∷ p)) (λ c. c == b'x')
unfolding slack_token has_prefix
slack_token-IsFair p before c s e m = ground (
  arith,
  has_prefix-le-length (c ∷ s) (b'x' ∷ p),
  length-drop (length (b'x' ∷ p)) (c ∷ s),
  span-le-length in_slack (drop (length (b'x' ∷ p)) (c ∷ s)),
)

userinfo_end-le-length : (s : Bytes) (e : ℕ) → userinfo_end s ≡ some e → e ≤ length s
unfolding userinfo_end
userinfo_end-le-length s e m = elim (Option-cases (index_byte s b':')) [
  | inl f ↦ ground arith
  | inr (colon, found) ↦ elim (Option-cases (index_byte (drop colon s) b'@')) [
    | inl f ↦ ground arith
    | inr (at, here) ↦ ground (
      arith,
      index_byte-lt-length s b':' found,
      index_byte-lt-length (drop colon s) b'@' here,
      length-drop colon s,
    )
  ]
]

conn_str-IsFair : (d : ℕ) (p : Bytes) → IsFair (λ _ s. conn_str s (d ∷ p)) (λ c. c == d)
unfolding conn_str
conn_str-IsFair d p before c s e m =
    elim (Option-cases (userinfo_end (drop (length (d ∷ p)) (c ∷ s)))) [
      | inl f ↦ ground arith
      | inr (k, found) ↦ ground (
        arith,
        has_prefix-head c d s p,
        has_prefix-le-length (c ∷ s) (d ∷ p),
        length-drop (length (d ∷ p)) (c ∷ s),
        userinfo_end-le-length (drop (length (d ∷ p)) (c ∷ s)) k found,
      )
    ]

-- A wider test of the first byte.
IsFair-mono :
    (fn : Option ℕ → Bytes → Option ℕ) (p q : ℕ → Bool)
    → ((c : ℕ) → p c ≡ true → q c ≡ true)
    → IsFair fn p
    → IsFair fn q
IsFair-mono fn p q wider fair before c s e m =
    let (starts, some_byte, within) = fair before c s e m in (wider c starts, some_byte, within)

-- If each round of a loop over texts is fair, the loop is.
first_of-IsFair :
    (fn : Bytes → Bytes → Option ℕ) (starts : ℕ → Bool) (ps : List Bytes)
    → All (λ p. IsFair (λ _ s. fn s p) starts) ps
    → IsFair (λ _ s. first_of (fn s) ps) starts
unfolding first_of
first_of-IsFair fn starts [] fair before c s e m = cc
first_of-IsFair fn starts (p ∷ ps) fair before c s e m = elim (Option-cases (fn (c ∷ s) p)) [
  | inl failed ↦ first_of-IsFair fn starts ps fair.1 before c s e (rw (failed, first_of) at m)
  | inr (k, found) ↦ fair.0 before c s e (ground arith)
]

github_any_matcher-IsFair : IsFair github_any_matcher (λ c. c == b'g')
unfolding github_any_matcher
github_any_matcher-IsFair =
    first_of-IsFair github_token (λ c. c == b'g') github_prefixes
      (
        github_token-IsFair (codes "hp_"),
        (
          github_token-IsFair (codes "ho_"),
          (
            github_token-IsFair (codes "hu_"),
            (
              github_token-IsFair (codes "hs_"),
              (github_token-IsFair (codes "hr_"), (github_token-IsFair (codes "ithub_pat_"), tt)),
            ),
          ),
        ),
      )

slack_any_matcher-IsFair : IsFair slack_any_matcher (λ c. c == b'x')
unfolding slack_any_matcher
slack_any_matcher-IsFair =
    first_of-IsFair slack_token (λ c. c == b'x') slack_prefixes
      (
        slack_token-IsFair (codes "oxp-"),
        (
          slack_token-IsFair (codes "oxb-"),
          (slack_token-IsFair (codes "oxa-"), (slack_token-IsFair (codes "oxs-"), tt)),
        ),
      )

abbrev starts_conn : ℕ → Bool
starts_conn c = c == b'p' || c == b'm' || c == b'r'

conn_at :
    (d : ℕ) (p : Bytes) → starts_conn d ≡ true → IsFair (λ _ s. conn_str s (d ∷ p)) starts_conn
conn_at d p h =
    IsFair-mono (λ _ s. conn_str s (d ∷ p)) (λ c. c == d) starts_conn
      (λ c e. rw (sym ((==_iff c d).0 e)) at h) (conn_str-IsFair d p)

conn_str_matcher-IsFair : IsFair conn_str_matcher starts_conn
unfolding conn_str_matcher
conn_str_matcher-IsFair = first_of-IsFair conn_str starts_conn schemes (
  conn_at b'p' (codes "ostgres://") refl,
  (
    conn_at b'p' (codes "ostgresql://") refl,
    (
      conn_at b'm' (codes "ysql://") refl,
      (conn_at b'm' (codes "ongodb://") refl, (conn_at b'r' (codes "edis://") refl, tt)),
    ),
  ),
)

span_pos : (p : ℕ → Bool) (c : ℕ) (s : Bytes) → p c ≡ true → 0 < span p (c ∷ s)
unfolding span
span_pos p c s h = ground arith

-- A byte at index `n` makes the text longer than `n`.
starts_with-drop :
    (p : ℕ → Bool) (n : ℕ) (s : Bytes) → starts_with p (drop n s) ≡ true → n < length s
unfolding drop
starts_with-drop p zero [] h = cc
starts_with-drop p zero (c ∷ s) h = omega arith
starts_with-drop p (suc n) [] h = cc
starts_with-drop p (suc n) (c ∷ s) h = omega (arith, starts_with-drop p n s h)

card_luhn_matcher-IsFair : IsFair card_luhn_matcher is_digit
unfolding card_luhn_matcher in_card
card_luhn_matcher-IsFair before c s e m = elim (Bool-cases (is_digit c)) [
  | inl d ↦ ground (arith, span-le-length in_card (c ∷ s), span_pos in_card c s)
  | inr d ↦ ground arith
]

jwt_matcher-IsFair : IsFair jwt_matcher is_b64
unfolding jwt_matcher span in_jwt
jwt_matcher-IsFair before c s e m = ground (arith, span-le-length in_jwt (c ∷ s))

email_matcher-IsFair : IsFair email_matcher is_email_local
unfolding email_matcher
email_matcher-IsFair before c s e m =
    let j = span is_email_local (c ∷ s) in
    ground (
      arith,
      span-le-length is_email_local (c ∷ s),
      span-le-length in_host (drop (j + 1) (c ∷ s)),
      length-drop (j + 1) (c ∷ s),
      starts_with-drop (λ c. c == b'@') j (c ∷ s),
    )

-- Every entry of the table succeeds only at a byte that its test admits, takes one byte at least and
-- stays in the line.
pub matchers-All : All (λ m. IsFair m.fn m.starts) matchers
unfolding matchers
matchers-All = (
  pem_matcher-IsFair,
  (
    bearer_matcher-IsFair,
    (
      prefix_token_fn-IsFair b's' (codes "k_live_") 16,
      (
        github_any_matcher-IsFair,
        (
          slack_any_matcher-IsFair,
          (
            prefix_token_fn-IsFair b'A' (codes "KIA") 16,
            (
              prefix_token_fn-IsFair b'A' (codes "Iza") 32,
              (
                jwt_matcher-IsFair,
                (
                  conn_str_matcher-IsFair,
                  (
                    cookie_set_matcher-IsFair,
                    (
                      session_eq_matcher-IsFair,
                      (card_luhn_matcher-IsFair, (email_matcher-IsFair, tt)),
                    ),
                  ),
                ),
              ),
            ),
          ),
        ),
      ),
    ),
  ),
)
