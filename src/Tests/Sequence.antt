-- ===== src/Tests/Sequence.antt =====
-- The sequence allocator at concrete inputs.
use upcontrol.Prelude.{ℕ, ◌≤◌, ◌<◌, ◌≡◌, refl, List, [], ◌∷◌, In, IsDistinct, arith, negsuc}
use upcontrol.Ring.Seq.{
  Allocator, new, fast_path, lease_seq_block, slow_path, next_seq, failing, working,
}
use upcontrol.Ring.Seq.Steps.{
  idle, waiting, holding, System, update, fast, exhausted, lease, slow, Reach, here, more, boot,
}
use upcontrol.Ring.Seq.Unique.{Reach-IsDistinct}
use upcontrol.Ring.Seq.Sequential.{Action, call, elsewhere, run}
use upcontrol.Ring.Seq.Backward.{numbers_go_back}

abbrev small : Allocator
small = record { block_size = 2; next = 0; end = 0 }

default_block_size : (new (negsuc 3)).block_size ≡ 10000
unfolding new
default_block_size = refl

-- One goroutine leases a block and takes both of its numbers.
abbrev leased : System
leased = record (boot small 5) {
  counter = 7;
  goroutines = update (update (boot small 5).goroutines 0 waiting) 0 (holding 5);
}

abbrev served : System
served = record leased {
  alloc = record small { next = 6; end = 7 };
  goroutines = update leased.goroutines 0 idle;
  handed = 5 ∷ [];
}

abbrev both : System
both = record served { alloc = record small { next = 7; end = 7 }; handed = 6 ∷ 5 ∷ [] }

both_reached : Reach (boot small 5) both
unfolding fast_path lease_seq_block slow_path
both_reached =
    more
      (more (more (more here (exhausted 0 refl refl)) (lease 0 7 5 refl refl))
        (slow 0 5 5 served.alloc refl refl))
      (fast 0 6 both.alloc refl refl)

Reach-IsDistinct_example :
    IsDistinct both.handed
    × ((e : ℕ) → In e both.handed → e < both.counter)
    × (both.alloc.end ≤ both.counter)
Reach-IsDistinct_example = Reach-IsDistinct small 5 both (omega arith) both_reached

abbrev calls : List Action
calls =
    call working
    ∷ elsewhere 10
    ∷ call working
    ∷ call failing
    ∷ call working
    ∷ call failing
    ∷ call working
    ∷ []

calls-run : run small 5 calls ≡ 5 ∷ 6 ∷ 17 ∷ 18 ∷ 19 ∷ []
unfolding run next_seq
calls-run = refl

numbers_go_back_example :
    (t : System) × (earlier later : ℕ) × (before : List ℕ) × Reach (boot small 5) t
    × (t.handed ≡ later ∷ before)
    × In earlier before
    × (later < earlier)
numbers_go_back_example = numbers_go_back small 5 (omega arith)
