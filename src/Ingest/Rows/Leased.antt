-- ===== src/Ingest/Rows/Leased.antt =====
-- The block-leasing allocator behind the rows: back/internal/ring/seq/seq.go as the SeqAllocator of
-- back/internal/ingest/ingest.go. One project, and nothing between the sections of a call.
use upcontrol.Prelude.{ℕ, ◌≤◌, ◌<◌, inl, inr, Option, none, some}
use upcontrol.Ring.Seq.{Allocator, Leaser, Result, ok, err, next_seq}
use upcontrol.Ring.Seq.Sequential.{frontier, call_step}
use upcontrol.Ingest.Rows.{Services}
use upcontrol.Ingest.Rows.Numbered.{IsOrdered}

abbrev pub value : Result ℕ → Option ℕ
value (ok v) = some v
value (err e) = none

-- The allocator with the counter that it leases from.
abbrev pub next_of : Leaser → Allocator × ℕ → ℕ → (Allocator × ℕ) × Option ℕ
next_of l (a, counter) project =
    let (r, a', counter') = next_seq l a counter in ((a', counter'), value r)

ring_order : (l : Leaser) → IsOrdered (next_of l)
ring_order l = record {
  Sound = λ s. (0 < s.0.block_size) × (s.0.end ≤ s.1);
  low = λ s. frontier s.0 s.1;
  step = λ s p sound.
      let (positive, within, moved) = call_step l s.0 s.1 sound.0 sound.1 in
      (
        (positive, within),
        elim moved [ inl (e, er, le) ↦ rw er le | inr (v, er, le, lt) ↦ rw er (le, lt) ],
      );
}

abbrev pub with_ring : Services (Allocator × ℕ) → Leaser → Services (Allocator × ℕ)
with_ring c l = record c { next = next_of l }
