-- ===== src/Probe/Guard.antt =====
-- The addresses a probe may reach, back/internal/probe/guard/guard.go.
use upcontrol.Prelude.{
  ℕ, ◌+◌, ◌*◌, ◌-◌, ◌/◌, ◌%◌, ◌^◌, Bool, true, false, ◌&&◌, ◌||◌, not, Option, none, some, List, [],
  ◌∷◌, map, ◌==◌, if◌then◌else◌,
}
use upcontrol.Prelude.Bytes.{Bytes, codes}
use upcontrol.Ingest.Normalize.{lower, bytes_eq}
pub mod Ranges

-- A net.IP of 4 bytes or of 16, as the number that its bytes write.
pub data Ip : Type 0 where
  v4 : ℕ → Ip
  v6 : ℕ → Ip

-- `ip.To4()`: an address of 16 bytes with the prefix ::ffff:0:0/96 is one of 4.
unfoldable pub to4 : Ip → Ip
to4 (v4 n) = v4 n
to4 (v6 n) = if n / 2 ^ 32 == 65535 then v4 (n % 2 ^ 32) else v6 n

-- A block a.b.c.d/len, or the same of 16 bytes.
pub record Net : Type 0 where
  pub network : Ip
  pub len : ℕ

abbrev pub dotted : ℕ → ℕ → ℕ → ℕ → Ip
dotted a b c d = v4 (a * 2 ^ 24 + b * 2 ^ 16 + c * 2 ^ 8 + d)

abbrev pub block : Ip → ℕ → Net
block ip len = record { network = ip; len = len }

abbrev pub blocked_nets : List Net
blocked_nets =
    block (dotted 10 0 0 0) 8
    ∷ block (dotted 172 16 0 0) 12
    ∷ block (dotted 192 168 0 0) 16
    ∷ block (dotted 127 0 0 0) 8
    ∷ block (dotted 169 254 0 0) 16
    ∷ block (dotted 0 0 0 0) 8
    ∷ block (dotted 100 64 0 0) 10
    ∷ block (v6 1) 128
    ∷ block (v6 (0xfc00 * 2 ^ 112)) 7
    ∷ block (v6 (0xfe80 * 2 ^ 112)) 10
    ∷ []

-- The first `len` bits of both, of `width` bits, are the same.
abbrev pub same_bits : ℕ → ℕ → ℕ → ℕ → Bool
same_bits width len m n = n / 2 ^ (width - len) == m / 2 ^ (width - len)

-- IPNet.Contains: addresses of different lengths do not match.
abbrev pub covers : Ip → ℕ → Ip → Bool
covers (v4 m) len (v4 n) = same_bits 32 len m n
covers (v4 m) len (v6 n) = false
covers (v6 m) len (v4 n) = false
covers (v6 m) len (v6 n) = same_bits 128 len m n

unfoldable pub net_contains : Net → Ip → Bool
net_contains net ip = covers net.network net.len (to4 ip)

-- IP.IsPrivate, IP.IsLoopback, IP.IsLinkLocalUnicast and IP.IsUnspecified, on the bytes that To4
-- leaves.
abbrev pub private_bytes : Ip → Bool
private_bytes (v4 n) =
    n / 2 ^ 24 == 10
    || (n / 2 ^ 24 == 172 && (n / 2 ^ 16 % 256) / 16 == 1)
    || (n / 2 ^ 24 == 192 && n / 2 ^ 16 % 256 == 168)
private_bytes (v6 n) = (n / 2 ^ 120) / 2 == 0xfc / 2

abbrev pub loopback_bytes : Ip → Bool
loopback_bytes (v4 n) = n / 2 ^ 24 == 127
loopback_bytes (v6 n) = n == 1

abbrev pub link_local_bytes : Ip → Bool
link_local_bytes (v4 n) = n / 2 ^ 24 == 169 && n / 2 ^ 16 % 256 == 254
link_local_bytes (v6 n) = n / 2 ^ 120 == 0xfe && (n / 2 ^ 112 % 256) / 64 == 2

abbrev pub unspecified_bytes : Ip → Bool
unspecified_bytes (v4 n) = n == 0
unspecified_bytes (v6 n) = n == 0

unfoldable pub is_private : Ip → Bool
is_private ip = private_bytes (to4 ip)

unfoldable pub is_loopback : Ip → Bool
is_loopback ip = loopback_bytes (to4 ip)

unfoldable pub is_link_local_unicast : Ip → Bool
is_link_local_unicast ip = link_local_bytes (to4 ip)

unfoldable pub is_unspecified : Ip → Bool
is_unspecified ip = unspecified_bytes (to4 ip)

unfoldable pub any_contains : List Net → Ip → Bool
unfolding net_contains
any_contains [] ip = false
any_contains (net ∷ nets) ip = net_contains net ip || any_contains nets ip

-- CheckIP returns ErrBlockedTarget.
unfoldable pub check_ip : Ip → Bool
unfolding any_contains is_private is_loopback is_link_local_unicast is_unspecified
check_ip ip =
    any_contains blocked_nets ip
    || (is_private ip || is_loopback ip || is_link_local_unicast ip || is_unspecified ip)

-- CheckResolvedIPs returns an error.
unfoldable pub check_resolved_ips : List Ip → Bool
unfolding check_ip
check_resolved_ips [] = false
check_resolved_ips (ip ∷ ips) = check_ip ip || check_resolved_ips ips

pub data GuardError : Type 0 where
  bad_url scheme_not_allowed port_not_allowed blocked_target : GuardError

-- What url.Parse finds in the text; `address` is what net.ParseIP reads in the host name.
pub record Url : Type 0 where
  pub scheme : Bytes
  pub port : Bytes
  pub address : Option Ip

unfoldable pub allowed_port : Bytes → Bool
unfolding bytes_eq
allowed_port p = bytes_eq p [] || bytes_eq p (codes "80") || bytes_eq p (codes "443")

abbrev address_error : Option Ip → Option GuardError
address_error none = none
address_error (some ip) = if check_ip ip then some blocked_target else none

-- CheckURL, given the result of url.Parse. An empty host name reads as no address.
unfoldable pub check_url : Option Url → Option GuardError
unfolding allowed_port lower bytes_eq check_ip
check_url none = some bad_url
check_url (some u) =
    let scheme = map lower u.scheme in
    if not (bytes_eq scheme (codes "http")) && not (bytes_eq scheme (codes "https"))
    then some scheme_not_allowed
    else if not (allowed_port u.port)
    then some port_not_allowed
    else address_error u.address
