-- ===== src/Probe/Guard/Ranges.antt =====
-- The addresses that the guard of back/internal/probe/guard/guard.go blocks, as ranges of numbers.
use upcontrol.Prelude.{
  ℕ, ◌+◌, ◌-◌, ◌*◌, ◌/◌, ◌%◌, ◌^◌, ◌<◌, ◌≡◌, ◌↔◌, refl, sym, ap, ◌∙◌, Bool, true, false, ◌&&◌, ◌||◌,
  List, [], ◌∷◌, arith, ◌==◌, All, inl, inr, Bool-cases,
}
use upcontrol.Prelude.Bytes.{between}
use upcontrol.Probe.Guard.{
  Ip, v4, v6, Net, to4, covers, blocked_nets, private_bytes, loopback_bytes, link_local_bytes,
  unspecified_bytes, check_ip, check_resolved_ips,
}

-- An address of 32 bits or 128.
abbrev pub IsAddress : Ip → Type 0
IsAddress (v4 n) = n < 2 ^ 32
IsAddress (v6 n) = n < 2 ^ 128

-- 0.0.0.0/8, 10.0.0.0/8, 100.64.0.0/10, 127.0.0.0/8, 169.254.0.0/16, 172.16.0.0/12, 192.168.0.0/16.
pub blocked4 : ℕ → Bool
blocked4 n =
    between 0 16777215 n
    || between 167772160 184549375 n
    || between 1681915904 1686110207 n
    || between 2130706432 2147483647 n
    || between 2851995648 2852061183 n
    || between 2886729728 2887778303 n
    || between 3232235520 3232301055 n

-- The two addresses :: and ::1, the addresses of 4 bytes in 16, fc00::/7 and fe80::/10.
pub blocked6 : ℕ → Bool
blocked6 n =
    between 0 1 n
    || (between (65535 * 2 ^ 32) (65536 * 2 ^ 32 - 1) n && blocked4 (n - 65535 * 2 ^ 32))
    || between (0xfc * 2 ^ 120) (0xfe * 2 ^ 120 - 1) n
    || between (0xfe80 * 2 ^ 112) (0xfec0 * 2 ^ 112 - 1) n

pub blocked : Ip → Bool
blocked (v4 n) = blocked4 n
blocked (v6 n) = blocked6 n

-- A block of addresses is a range of numbers.
range24 : (n a : ℕ) → (n / 2 ^ 24 == a) ≡ between (a * 2 ^ 24) (a * 2 ^ 24 + (2 ^ 24 - 1)) n
range24 n a = ground arith

range22 : (n a : ℕ) → (n / 2 ^ 22 == a) ≡ between (a * 2 ^ 22) (a * 2 ^ 22 + (2 ^ 22 - 1)) n
range22 n a = ground arith

range20 : (n a : ℕ) → (n / 2 ^ 20 == a) ≡ between (a * 2 ^ 20) (a * 2 ^ 20 + (2 ^ 20 - 1)) n
range20 n a = ground arith

range16 : (n a : ℕ) → (n / 2 ^ 16 == a) ≡ between (a * 2 ^ 16) (a * 2 ^ 16 + (2 ^ 16 - 1)) n
range16 n a = ground arith

-- The second byte of a pair.
pair_range :
    (n a b : ℕ) → b < 256 → (n / 2 ^ 24 == a && n / 2 ^ 16 % 256 == b) ≡ (n / 2 ^ 16 == a * 256 + b)
pair_range n a b h = ground arith

half_pair :
    (n a : ℕ) → (n / 2 ^ 24 == a && (n / 2 ^ 16 % 256) / 16 == 1) ≡ (n / 2 ^ 20 == a * 16 + 1)
half_pair n a = ground arith

-- The four methods of net.IP block nothing that the list does not.
merge :
    (ten b172 b192 b127 b169 b0 b100 zero : Bool)
    → (zero ≡ true → b0 ≡ true)
    → ((ten
          || (b172
              || (b192
                  || (b127 || (b169 || (b0 || (b100 || (false || (false || (false || false))))))))))
        || (((ten || b172) || b192) || b127 || b169 || zero))
      ≡ ((((((b0 || ten) || b100) || b127) || b169) || b172) || b192)
merge true b172 b192 b127 b169 b0 b100 z h = ground arith
merge false true b192 b127 b169 b0 b100 z h = ground arith
merge false false true b127 b169 b0 b100 z h = ground arith
merge false false false b127 b169 b0 b100 z h = ground arith

range32 : (n a : ℕ) → (n / 2 ^ 32 == a) ≡ between (a * 2 ^ 32) (a * 2 ^ 32 + (2 ^ 32 - 1)) n
range32 n a = ground arith

range121 : (n a : ℕ) → (n / 2 ^ 121 == a) ≡ between (a * 2 ^ 121) (a * 2 ^ 121 + (2 ^ 121 - 1)) n
range121 n a = ground arith

range118 : (n a : ℕ) → (n / 2 ^ 118 == a) ≡ between (a * 2 ^ 118) (a * 2 ^ 118 + (2 ^ 118 - 1)) n
range118 n a = ground arith

half_120 : (n : ℕ) → (n / 2 ^ 120 / 2 == 126) ≡ (n / 2 ^ 121 == 126)
half_120 n = ground arith

quarter_120 : (n : ℕ) → (n / 2 ^ 120 == 254 && n / 2 ^ 112 % 256 / 64 == 2) ≡ (n / 2 ^ 118 == 1018)
quarter_120 n = ground arith

low_pair : (n : ℕ) → (n == 1 || n == 0) ≡ between 0 1 n
low_pair n = ground arith

div_one : (n : ℕ) → n / 1 ≡ n
div_one n = omega arith

merge6 :
    (one fc fe zero other : Bool)
    → ((one || (fc || (fe || false))) || (((fc || one) || fe) || zero))
      ≡ ((((one || zero) || (false && other)) || fc) || fe)
merge6 one fc fe zero other = ground arith

any_covers : List Net → Ip → Bool
any_covers [] ip = false
any_covers (net ∷ nets) ip = covers net.network net.len ip || any_covers nets ip

-- CheckIP of an address that To4 leaves as it is.
plain : Ip → Bool
unfolding any_covers
plain ip =
    any_covers blocked_nets ip
    || (private_bytes ip || loopback_bytes ip || link_local_bytes ip || unspecified_bytes ip)

check_ip-to4 : (ip : Ip) → check_ip ip ≡ plain (to4 ip)
unfolding check_ip plain
check_ip-to4 ip = refl

plain-v4 : (n : ℕ) → plain (v4 n) ≡ blocked4 n
unfolding plain blocked4
plain-v4 n =
    rw (pair_range n 192 168 (omega arith), pair_range n 169 254 (omega arith), half_pair n 172)
      (merge (n / 2 ^ 24 == 10) (n / 2 ^ 20 == 2753) (n / 2 ^ 16 == 49320) (n / 2 ^ 24 == 127)
          (n / 2 ^ 16 == 43518) (n / 2 ^ 24 == 0) (n / 2 ^ 22 == 401) (n == 0) (ground arith)
        ∙ rw (
          range24 n 0,
          range24 n 10,
          range24 n 127,
          range22 n 401,
          range16 n 43518,
          range16 n 49320,
          range20 n 2753,
        ))

-- An address of 16 bytes that is none of 4.
plain-v6 : (n : ℕ) → (n / 2 ^ 32 == 65535) ≡ false → plain (v6 n) ≡ blocked6 n
unfolding plain blocked6
plain-v6 n e =
    let outside : between (65535 * 2 ^ 32) (65536 * 2 ^ 32 - 1) n ≡ false = ground arith in
    rw (half_120 n, quarter_120 n, div_one n)
      (merge6 (n == 1) (n / 2 ^ 121 == 126) (n / 2 ^ 118 == 1018) (n == 0)
          (blocked4 (n - 65535 * 2 ^ 32))
        ∙ rw (low_pair n, range121 n 126, range118 n 1018, blocked6, outside))

or_false : (b : Bool) → ((false || (true && b)) || false) || false ≡ b
or_false true = refl
or_false false = refl

-- The other ranges of blocked6 are out of reach then.
high : (n : ℕ) → (n / 2 ^ 32 == 65535) ≡ true → blocked6 n ≡ blocked4 (n - 65535 * 2 ^ 32)
unfolding blocked6
high n e =
    let low : between 0 1 n ≡ false = ground arith in
    let in_range : between (65535 * 2 ^ 32) (65536 * 2 ^ 32 - 1) n ≡ true = ground arith in
    let not_fc : between (0xfc * 2 ^ 120) (0xfe * 2 ^ 120 - 1) n ≡ false = ground arith in
    let not_fe : between (0xfe80 * 2 ^ 112) (0xfec0 * 2 ^ 112 - 1) n ≡ false = ground arith in
    rw (low, in_range, not_fc, not_fe) (or_false (blocked4 (n - 65535 * 2 ^ 32)))

mapped : (n : ℕ) → (n / 2 ^ 32 == 65535) ≡ true → blocked6 n ≡ blocked4 (n % 2 ^ 32)
unfolding blocked6
mapped n e =
    let same : n - 65535 * 2 ^ 32 ≡ n % 2 ^ 32 = ground arith in high n e ∙ ap blocked4 same

check_ip-blocked : (ip : Ip) → check_ip ip ≡ blocked ip
unfolding blocked to4
check_ip-blocked (v4 n) = check_ip-to4 (v4 n) ∙ plain-v4 n
check_ip-blocked (v6 n) = elim (Bool-cases (n / 2 ^ 32 == 65535)) [
  | inl e ↦ check_ip-to4 (v6 n) ∙ rw (e, to4) (plain-v4 (n % 2 ^ 32) ∙ sym (mapped n e))
  | inr e ↦ check_ip-to4 (v6 n) ∙ rw (e, to4) (plain-v6 n e)
]

-- A list of resolved addresses passes exactly when each of them lies outside the blocked ranges,
-- also an address of 4 bytes that is written as one of 16.
pub check_resolved_ips-IsPublic :
    (ips : List Ip) → (check_resolved_ips ips ≡ false) ↔ All (λ ip. blocked ip ≡ false) ips
unfolding check_resolved_ips
check_resolved_ips-IsPublic [] = (λ _. tt, λ _. refl)
check_resolved_ips-IsPublic (ip ∷ ips) =
    let rest = check_resolved_ips-IsPublic ips in
    rw (check_ip-blocked ip) (λ h. ground arith, λ h. ground arith)
