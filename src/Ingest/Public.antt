-- ===== src/Ingest/Public.antt =====
-- The gates of a public key, back/internal/ingest/public.go. Times are nanoseconds since Go's zero
-- time.
pub mod Budget
pub mod Gates
pub mod Events
use Prim.Native.Char.{nul}
use Prim.Native.String.{◌++◌ as concat}
use upcontrol.Prelude.{
  ℕ, suc, ◌+◌, ◌-◌, ◌%◌, Bool, true, false, ◌&&◌, ◌||◌, not, String, str_eq, Option, none, some,
  List, [], ◌∷◌, leb, ◌==◌, if◌then◌else◌, length, minute, Dict, get, put, is_some,
}
use upcontrol.Prelude.Bytes.{Bytes, codes, take, trim_space, index_byte}
use upcontrol.Ingest.Normalize.{bytes_eq, classify}
use upcontrol.Ingest.Decode.Records.{Record}

abbrev pub public_rate_window : ℕ
public_rate_window = minute

abbrev pub public_rate_max : ℕ
public_rate_max = 120

abbrev pub sweep_at : ℕ
sweep_at = 10000

pub record RateWindow : Type 0 where
  pub window : ℕ
  pub count : ℕ

-- `now.Truncate(publicRateWindow)`
unfoldable pub truncate : ℕ → ℕ
truncate now = now - now % public_rate_window

-- The entries that the sweep keeps.
unfoldable pub swept : ℕ → Dict RateWindow → Dict RateWindow
swept win [] = []
swept win ((k, h) ∷ hits) =
    let rest = swept win hits in if h.window == win then (k, h) ∷ rest else rest

abbrev pub fresh : ℕ → RateWindow
fresh win = record { window = win; count = 0 }

-- The entry of the key in this window.
unfoldable pub current : ℕ → Option RateWindow → RateWindow
current win none = fresh win
current win (some h) = if h.window == win then h else fresh win

unfoldable pub stamp : Dict RateWindow → String → RateWindow → Dict RateWindow × Bool
stamp hits k h =
    if leb public_rate_max h.count
    then (put hits k h, false)
    else (put hits k (record h { count = h.count + 1 }), true)

-- The map of the limiter is its whole state; `k` is the API key and the address.
unfoldable pub allow_at : Dict RateWindow → String → ℕ → Dict RateWindow × Bool
allow_at hits k win =
    let kept = if leb sweep_at (length hits) then swept win hits else hits in
    stamp kept k (current win (get kept k))

-- `key + "\x00" + ip`
abbrev pub address : String → String → String
address key ip = concat key (concat (String.◌∷◌ nul String.[]) ip)

unfoldable pub allow : Dict RateWindow → String → String → ℕ → Dict RateWindow × Bool
allow hits key ip now = allow_at hits (address key ip) (truncate now)

-- Exact bytes, and never "null".
unfoldable pub listed : Bytes → List Bytes → Bool
unfolding bytes_eq
listed presented [] = false
listed presented (o ∷ os) = bytes_eq presented o || listed presented os

unfoldable pub match_origin : Bytes → List Bytes → Bytes
unfolding listed bytes_eq
match_origin presented origins =
    if bytes_eq presented [] || bytes_eq presented (codes "null")
    then []
    else if listed presented origins
    then presented
    else []

-- How a request on a public key goes on: three answers are sent here, two of them with the origin
-- that the browser has to see.
pub data Gate : Type 0 where
  bad_key : Gate
  bot_dropped : Bytes → Gate
  rate_limited : Bytes → Gate
  passes : Bytes → Gate

unfoldable pub budget : Bytes → Dict RateWindow × Bool → Gate × Dict RateWindow
budget origin (hits, ok) = (if ok then passes origin else rate_limited origin, hits)

-- `h.d.IsBot != nil && h.d.IsBot(agent)`
unfoldable pub detected : Option (String → Bool) → String → Bool
detected none agent = false
detected (some is_bot) agent = is_bot agent

unfoldable pub gate_public :
    Option (String → Bool)
    → List Bytes
    → (presented : Bytes) (agent key ip : String) → ℕ
    → Dict RateWindow
    → Gate × Dict RateWindow
unfolding bytes_eq
gate_public is_bot origins presented agent key ip now hits =
    let origin = match_origin presented origins in
    if bytes_eq origin []
    then (bad_key, hits)
    else if detected is_bot agent
    then (bot_dropped origin, hits)
    else budget origin (allow hits key ip now)

-- The records that name an event, and how many do not.
unfoldable pub only_events : List Record → List Record × ℕ
unfolding classify
only_events [] = ([], 0)
only_events (r ∷ rs) =
    let (kept, refused) = only_events rs in
    if bytes_eq (classify r.message r.named).name []
    then (kept, suc refused)
    else (r ∷ kept, refused)
