-- ===== src/Ring/Seq.antt =====
-- The block-leasing sequence allocator, back/internal/ring/seq/seq.go, and the row of project_seq
-- that it leases from (back/internal/storage/pg/queries). A goroutine runs `Next` in up to three
-- critical sections, which the steps of `Seq.Steps` interleave.
pub mod Steps
pub mod Unique
pub mod Sequential
pub mod Backward
use upcontrol.Prelude.{
  ℕ, ◌+◌, Bool, true, false, Option, none, some, ℤ, ltb, positive_or, if◌then◌else◌,
}

pub record Allocator : Type 0 where
  pub block_size : ℕ
  pub next : ℕ
  pub end : ℕ

abbrev pub default_block : ℕ
default_block = 10000

unfoldable pub new : ℤ → Allocator
new block_size = record { block_size = positive_or block_size default_block; next = 0; end = 0 }

-- The first critical section: the next value of the block, or `none` when it is used up.
unfoldable pub fast_path : Allocator → Allocator × Option ℕ
fast_path a = if ltb a.next a.end then (record a { next = a.next + 1 }, some a.next) else (a, none)

-- LeaseSeqBlock: the counter moves on by the block, and its old value is the block's start.
unfoldable pub lease_seq_block : ℕ → ℕ → ℕ × ℕ
lease_seq_block block_size counter = (counter + block_size, counter)

-- The second critical section, with the start of the leased block.
unfoldable pub slow_path : Allocator → ℕ → Allocator × ℕ
slow_path a start =
    if ltb a.next a.end
    then (record a { next = a.next + 1 }, a.next)
    else (record a { next = start + 1; end = start + a.block_size }, start)

pub data NextError : Type 0 where
  no_leaser lease_failed : NextError

pub data Result {ℓ} (A : Type ℓ) : Type ℓ where
  ok : A → Result A
  err : NextError → Result A

pub data Leaser : Type 0 where
  absent failing working : Leaser

-- What follows the first section: the value, or the lease and the second section.
after_fast : Leaser → Allocator → ℕ → Option ℕ → Result ℕ × Allocator × ℕ
unfolding lease_seq_block slow_path
after_fast leaser a counter (some v) = (ok v, a, counter)
after_fast working a counter none =
    let (counter', start) = lease_seq_block a.block_size counter in
    let (a', v) = slow_path a start in (ok v, a', counter')
after_fast _ a counter none = (err lease_failed, a, counter)

with_leaser : Leaser → Allocator → ℕ → Result ℕ × Allocator × ℕ
unfolding fast_path after_fast
with_leaser absent a counter = (err no_leaser, a, counter)
with_leaser leaser a counter = let (a', v) = fast_path a in after_fast leaser a' counter v

-- `Next` run with nothing between its sections; the last component is the counter in Postgres.
unfoldable pub next_seq : Leaser → Allocator → ℕ → Result ℕ × Allocator × ℕ
unfolding with_leaser
next_seq leaser a counter = with_leaser leaser a counter
