-- ===== src/Tests/Targets.antt =====
-- The guard and the keys of targets at concrete addresses.
use upcontrol.Prelude.{
  ◌*◌, ◌+◌, ◌^◌, ◌≡◌, ◌≢◌, ◌↔◌, refl, true, false, Option, none, some, List, [], ◌∷◌, All,
}
use upcontrol.Prelude.Bytes.{Bytes, codes}
use upcontrol.Probe.Guard.{to4, Ip, v4, v6, check_resolved_ips, check_url, blocked_target}
use upcontrol.Probe.Guard.Ranges.{blocked, check_resolved_ips-IsPublic}
use upcontrol.TargetKey
use upcontrol.TargetKey.{clean, join, normalize_url, normalized, key_url, website, heartbeat}
use upcontrol.TargetKey.Separate.{website_unique}

-- 8.8.8.8, and 169.254.169.254 written as an address of 16 bytes.
abbrev resolved : List Ip
resolved = v4 134744072 ∷ v6 (65535 * 2 ^ 32 + 2852039166) ∷ []

metadata_refused : check_resolved_ips resolved ≡ true
unfolding check_resolved_ips to4
metadata_refused = refl

check_resolved_ips-IsPublic_example :
    (check_resolved_ips resolved ≡ false) ↔ All (λ ip. blocked ip ≡ false) resolved
check_resolved_ips-IsPublic_example = check_resolved_ips-IsPublic resolved

loopback_url :
    check_url (some (record { scheme = codes "HTTP"; port = []; address = some (v4 2130706433) }))
    ≡ some blocked_target
unfolding check_url to4
loopback_url = refl

abbrev site : Bytes → Option TargetKey.Url
site _ = some (record {
  scheme = codes "HTTPS";
  host = codes "WWW.Shop.io:443";
  hostname = codes "WWW.Shop.io";
  port = codes "443";
  path = codes "/";
  raw_query = [];
})

abbrev no_ascii : Bytes → Option Bytes
no_ascii _ = none

normal :
    normalize_url site no_ascii (codes " WWW.Shop.io:443/ ") ≡ normalized (codes "https://shop.io")
unfolding normalize_url
normal = refl

website_unique_example :
    ((website site no_ascii (codes "a") (codes "up")
        ≡ website site no_ascii (codes "b") (codes "up"))
      ↔ ((clean (key_url site no_ascii (codes "a")) ≡ clean (key_url site no_ascii (codes "b")))
          × (clean (codes "up") ≡ clean (codes "up"))))
    × (website site no_ascii (codes "a") (codes "up") ≢ heartbeat (codes "ab"))
website_unique_example =
    website_unique site no_ascii (codes "a") (codes "b") (codes "up") (codes "up") (codes "ab")
