-- ===== src/Ingest/Batcher.antt =====
-- The flush batcher, back/internal/ingest/batcher/batcher.go, called by one goroutine at a time.
-- The sink is a parameter: its error, if any, for what it is handed after what it was handed before.
pub mod Flow
pub mod Close
pub mod Conservation
pub mod Limits
use upcontrol.Prelude.{
  ℕ, ◌+◌, ◌≡◌, String, Bool, true, false, ◌&&◌, ◌||◌, not, List, [], ◌∷◌, ◌++◌, Option, none, some,
  ℤ, pos, leb, leb_ℤ, is_zero, sub, length, is_empty, positive_or, Dict, get, put, if◌then◌else◌,
}

abbrev pub Row : Type 0
Row = List ℕ

pub record Options : Type 0 where
  pub batch_bytes : ℕ
  pub batch_age : ℕ
  pub min_interval : ℕ

pub record Batch : Type 0 where
  pub rows : List Row
  pub bytes : ℕ
  pub oldest_at : ℕ
  pub last_flush : ℕ

abbrev pub empty_batch : ℕ → Batch
empty_batch last_flush = record { rows = []; bytes = 0; oldest_at = 0; last_flush = last_flush }

-- What the sink has been handed, in order.
abbrev pub Log : Type 0
Log = List (String × List Row)

abbrev pub Sink : Type 0
Sink = Log → String → List Row → Option ℕ

pub record Batcher : Type 0 where
  pub opt : Options
  pub pending : Dict Batch
  pub log : Log

-- The options as they are given, before the defaults are put in.
unfoldable pub new : ℤ → ℤ → ℤ → Batcher
new batch_bytes batch_age min_interval = record {
  opt = record {
    batch_bytes = positive_or batch_bytes 8388608;
    batch_age = positive_or batch_age 200000000;
    min_interval = positive_or min_interval 1000000000;
  };
  pending = [];
  log = [];
}

abbrev pub batch_or : Option Batch → Batch
batch_or none = empty_batch 0
batch_or (some ba) = ba

-- Hands the rows to the sink and leaves an empty batch that was flushed at `now`.
pub flush : Sink → Batcher → String → List Row → ℕ → Batcher × Option ℕ
flush sink b key rows now = (
  record b { pending = put b.pending key (empty_batch now); log = b.log ++ (key, rows) ∷ [] },
  sink b.log key rows,
)

pub append_row : Batch → Row → ℕ → Batch
append_row ba row now = record ba {
  oldest_at = if is_empty ba.rows then now else ba.oldest_at;
  rows = ba.rows ++ row ∷ [];
  bytes = ba.bytes + length row;
}

-- `now` and `flushed_at` are the two readings of the clock.
unfoldable pub add : Sink → Batcher → String → Row → ℕ → ℕ → Batcher × Option ℕ
unfolding append_row flush
add sink b key row now flushed_at =
    let ba = append_row (batch_or (get b.pending key)) row now in
    let b' = record b { pending = put b.pending key ba } in
    if leb b.opt.batch_bytes ba.bytes then flush sink b' key ba.rows flushed_at else (b', none)

pub pace_ok : Options → Batch → ℕ → Bool
pace_ok opt ba now = is_zero ba.last_flush || leb_ℤ (pos opt.min_interval) (sub now ba.last_flush)

eligible : Options → ℕ → Batch → Bool
unfolding pace_ok
eligible opt now ba =
    not (is_empty ba.rows) && leb_ℤ (pos opt.batch_age) (sub now ba.oldest_at) && pace_ok opt ba now

-- The snapshot of the keys to flush.
pub eligible_keys : Options → ℕ → Dict Batch → List String
unfolding eligible
eligible_keys opt now [] = []
eligible_keys opt now ((k, ba) ∷ m) =
    let rest = eligible_keys opt now m in if eligible opt now ba then k ∷ rest else rest

abbrev pub or_last : Option ℕ → Option ℕ → Option ℕ
or_last earlier none = earlier
or_last earlier (some e) = some e

-- One round of the loop of `Tick`: the batch is looked up again, and flushed unless it is empty or
-- too recent.
pub flush_key : Sink → ℕ → Batcher → String → Batcher × Option ℕ
unfolding pace_ok flush
flush_key sink now b key =
    let ba = batch_or (get b.pending key) in
    if is_empty ba.rows
    then (b, none)
    else if not (pace_ok b.opt ba now)
    then (b, none)
    else flush sink b key ba.rows now

pub flush_keys : Sink → ℕ → Batcher → Option ℕ → List String → Batcher × Option ℕ
unfolding flush_key
flush_keys sink now b err [] = (b, err)
flush_keys sink now b err (k ∷ ks) =
    let (b', e) = flush_key sink now b k in flush_keys sink now b' (or_last err e) ks

unfoldable pub tick : Sink → Batcher → ℕ → Batcher × Option ℕ
unfolding eligible_keys flush_keys
tick sink b now = flush_keys sink now b none (eligible_keys b.opt now b.pending)

pub close_from : Sink → Batcher → Option ℕ → Dict Batch → Batcher × Option ℕ
close_from sink b err [] = (b, err)
close_from sink b err ((k, ba) ∷ m) = elim (is_empty ba.rows) [
  | true ↦ close_from sink b err m
  | false ↦
      close_from sink (record b { log = b.log ++ (k, ba.rows) ∷ [] })
        (or_last err (sink b.log k ba.rows)) m
]

unfoldable pub close : Sink → Batcher → Batcher × Option ℕ
unfolding close_from
close sink b = close_from sink (record b { pending = [] }) none b.pending
