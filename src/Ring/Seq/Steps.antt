-- ===== src/Ring/Seq/Steps.antt =====
-- Interleavings of `Next` on one allocator, with other allocators leasing from the same row.
use upcontrol.Prelude.{ℕ, ◌+◌, ◌≡◌, List, [], ◌∷◌, none, some, ◌==◌, if◌then◌else◌}
use upcontrol.Ring.Seq.{Allocator, fast_path, lease_seq_block, slow_path}

-- Between its sections a goroutine waits for its lease, or holds the start of a leased block.
pub data Goroutine : Type 0 where
  idle waiting : Goroutine
  holding : ℕ → Goroutine

pub record System : Type 0 where
  pub alloc : Allocator
  pub counter : ℕ
  pub goroutines : ℕ → Goroutine
  pub handed : List ℕ

abbrev pub update : (ℕ → Goroutine) → ℕ → Goroutine → ℕ → Goroutine
update f i g j = if i == j then g else f j

-- The values that `Next` has returned so far, the latest first, are `handed`.
pub data Step (s : System) : System → Type 0 where
  fast :
      (i v : ℕ) (a : Allocator)
      → s.goroutines i ≡ idle
      → fast_path s.alloc ≡ (a, some v)
      → Step s (record s { alloc = a; handed = v ∷ s.handed })
  exhausted :
      (i : ℕ)
      → s.goroutines i ≡ idle
      → fast_path s.alloc ≡ (s.alloc, none)
      → Step s (record s { goroutines = update s.goroutines i waiting })
  lease :
      (i counter start : ℕ)
      → s.goroutines i ≡ waiting
      → lease_seq_block s.alloc.block_size s.counter ≡ (counter, start)
      → Step s (record s { counter = counter; goroutines = update s.goroutines i (holding start) })
  lease_error :
      (i : ℕ)
      → s.goroutines i ≡ waiting
      → Step s (record s { goroutines = update s.goroutines i idle })
  slow :
      (i start v : ℕ) (a : Allocator)
      → s.goroutines i ≡ holding start
      → slow_path s.alloc start ≡ (a, v)
      → Step s
          (record s { alloc = a; goroutines = update s.goroutines i idle; handed = v ∷ s.handed })
  other_lease : (n : ℕ) → Step s (record s { counter = s.counter + n })

pub data Reach (s : System) : System → Type 0 where
  here : Reach s s
  more : {t u : System} → Reach s t → Step t u → Reach s u

-- A fresh allocator, whatever the counter has reached.
abbrev pub boot : Allocator → ℕ → System
boot a counter = record {
  alloc = record a { next = 0; end = 0 };
  counter = counter;
  goroutines = λ i. idle;
  handed = [];
}
