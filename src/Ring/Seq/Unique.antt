-- ===== src/Ring/Seq/Unique.antt =====
-- The allocator under any interleaving, back/internal/ring/seq/seq.go.
use upcontrol.Prelude.{
  ℕ, ◌+◌, ◌≤◌, ◌<◌, ◌≡◌, ◌≢◌, refl, ◌⊎◌, inl, inr, ◌∷◌, In, IsDistinct, some, arith,
}
use upcontrol.Ring.Seq.{Allocator, fast_path, lease_seq_block, slow_path}
use upcontrol.Ring.Seq.Steps.{
  Goroutine, idle, waiting, holding, System, update, Step, fast, exhausted, lease, lease_error,
  slow, other_lease, Reach, here, more, boot,
}

-- The current block, the blocks that goroutines hold and the numbers handed out do not overlap, and
-- all lie below the counter.
record Inv (s : System) : Type 0 where
  end_le : s.alloc.end ≤ s.counter
  held_below : (i t : ℕ) → s.goroutines i ≡ holding t → t + s.alloc.block_size ≤ s.counter
  held_apart :
      (i t : ℕ)
      → s.goroutines i ≡ holding t
      → (t + s.alloc.block_size ≤ s.alloc.next) ⊎ (s.alloc.end ≤ t)
  held_held :
      (i j t u : ℕ)
      → i ≢ j
      → s.goroutines i ≡ holding t
      → s.goroutines j ≡ holding u
      → (t + s.alloc.block_size ≤ u) ⊎ (u + s.alloc.block_size ≤ t)
  handed_below : (e : ℕ) → In e s.handed → e < s.counter
  handed_block : (e : ℕ) → In e s.handed → (e < s.alloc.next) ⊎ (s.alloc.end ≤ e)
  handed_held :
      (e i t : ℕ)
      → In e s.handed
      → s.goroutines i ≡ holding t
      → (e < t) ⊎ (t + s.alloc.block_size ≤ e)
  distinct : IsDistinct s.handed

holding_of_update :
    (g : ℕ → Goroutine) (i j t : ℕ) (x : Goroutine)
    → ((u : ℕ) → x ≢ holding u)
    → update g i x j ≡ holding t
    → g j ≡ holding t
holding_of_update g i j t x n h = ground (arith, n t)

-- A goroutine that holds no block takes the place of one: nothing else changes.
released :
    (s : System) (i : ℕ) (x : Goroutine)
    → ((u : ℕ) → x ≢ holding u)
    → Inv s
    → Inv (record s { goroutines = update s.goroutines i x })
released s i x n v = record {
  end_le = v.end_le;
  held_below = λ j t h. v.held_below j t (back j t h);
  held_apart = λ j t h. v.held_apart j t (back j t h);
  held_held = λ j k t u d h h'. v.held_held j k t u d (back j t h) (back k u h');
  handed_below = v.handed_below;
  handed_block = v.handed_block;
  handed_held = λ e j t m h. v.handed_held e j t m (back j t h);
  distinct = v.distinct;
}
  where
    back : (j t : ℕ) → update s.goroutines i x j ≡ holding t → s.goroutines j ≡ holding t
    back j t h = holding_of_update s.goroutines i j t x n h

-- The next value of a block that is not used up is new.
serve :
    (s : System)
    → s.alloc.next < s.alloc.end
    → Inv s
    → Inv (record s {
      alloc = record s.alloc { next = s.alloc.next + 1 };
      handed = s.alloc.next ∷ s.handed;
    })
serve s room v = record {
  end_le = v.end_le;
  held_below = v.held_below;
  held_apart = λ i t h. ground (arith, v.held_apart i t h);
  held_held = v.held_held;
  handed_below = λ e m. ground (arith, v.handed_below e, v.end_le);
  handed_block = λ e m. ground (arith, v.handed_block e);
  handed_held = λ e i t m h. ground (arith, v.handed_held e i t, v.held_apart i t h);
  distinct = (λ m. ground (arith, v.handed_block s.alloc.next m), v.distinct);
}

take_lease :
    (s : System) (i : ℕ)
    → Inv s
    → Inv (record s {
      counter = s.counter + s.alloc.block_size;
      goroutines = update s.goroutines i (holding s.counter);
    })
take_lease s i v = record {
  end_le = omega (arith, v.end_le);
  held_below = λ j t h. ground (arith, v.held_below j t);
  held_apart = λ j t h. ground (arith, v.held_apart j t, v.end_le);
  held_held =
      λ j k t u d h h'. ground (arith, v.held_held j k t u d, v.held_below j t, v.held_below k u);
  handed_below = λ e m. omega (arith, v.handed_below e m);
  handed_block = v.handed_block;
  handed_held = λ e j t m h. ground (arith, v.handed_held e j t m, v.handed_below e m);
  distinct = v.distinct;
}

-- A goroutine puts its block in place of the one that is used up.
install :
    (s : System) (i start : ℕ)
    → 0 < s.alloc.block_size
    → s.alloc.end ≤ s.alloc.next
    → s.goroutines i ≡ holding start
    → Inv s
    → Inv (record s {
      alloc = record s.alloc { next = start + 1; end = start + s.alloc.block_size };
      goroutines = update s.goroutines i idle;
      handed = start ∷ s.handed;
    })
install s i start pos used g v = record {
  end_le = v.held_below i start g;
  held_below = λ j t h. ground (arith, v.held_below j t);
  held_apart = λ j t h. ground (arith, v.held_held i j start t);
  held_held = λ j k t u d h h'. ground (arith, v.held_held j k t u d);
  handed_below = λ e m. ground (arith, v.handed_below e, v.held_below i start g);
  handed_block = λ e m. ground (arith, v.handed_held e i start);
  handed_held = λ e j t m h. ground (arith, v.handed_held e j t, v.held_held i j start t);
  distinct = (λ m. ground (arith, v.handed_held start i start m g), v.distinct);
}

fast_inv :
    (al a : Allocator) (n : ℕ)
    → fast_path al ≡ (a, some n)
    → (al.next < al.end) × (a ≡ record al { next = al.next + 1 }) × (n ≡ al.next)
unfolding fast_path
fast_inv al a n e = ground arith

lease_inv : (b k c start : ℕ) → lease_seq_block b k ≡ (c, start) → (c ≡ k + b) × (start ≡ k)
unfolding lease_seq_block
lease_inv b k c start e = ground arith

slow_inv :
    (al a : Allocator) (start n : ℕ)
    → slow_path al start ≡ (a, n)
    → ((al.next < al.end) × (a ≡ record al { next = al.next + 1 }) × (n ≡ al.next))
      ⊎ ((al.end ≤ al.next)
          × (a ≡ record al { next = start + 1; end = start + al.block_size })
          × (n ≡ start))
unfolding slow_path
slow_inv al a start n e = ground arith

Step-Inv : {s t : System} → 0 < s.alloc.block_size → Step s t → Inv s → Inv t
Step-Inv pos (other_lease n) v = record {
  end_le = omega (arith, v.end_le);
  held_below = λ i t h. omega (arith, v.held_below i t h);
  held_apart = v.held_apart;
  held_held = v.held_held;
  handed_below = λ e h. omega (arith, v.handed_below e h);
  handed_block = v.handed_block;
  handed_held = v.handed_held;
  distinct = v.distinct;
}
Step-Inv {s} pos (fast i n a g e) v =
    let (room, p, q) = fast_inv s.alloc a n e in rw (p, q) (serve s room v)
Step-Inv {s} pos (exhausted i g e) v = released s i waiting (λ u. cc) v
Step-Inv {s} pos (lease i c start g e) v =
    let (p, q) = lease_inv s.alloc.block_size s.counter c start e in rw (p, q) (take_lease s i v)
Step-Inv {s} pos (lease_error i g) v = released s i idle (λ u. cc) v
Step-Inv {s} pos (slow i start n a g e) v = elim (slow_inv s.alloc a start n e) [
  | inl (room, p, q) ↦
      rw (p, q)
        (released
          (record s {
            alloc = record s.alloc { next = s.alloc.next + 1 };
            handed = s.alloc.next ∷ s.handed;
          })
          i idle (λ u. cc) (serve s room v))
  | inr (used, p, q) ↦ rw (p, q) (install s i start pos used g v)
]

block_size-Step : {s t : System} → Step s t → t.alloc.block_size ≡ s.alloc.block_size
block_size-Step {s} (fast i n a g e) = ground (arith, fast_inv s.alloc a n e)
block_size-Step {s} (slow i start n a g e) = ground (arith, slow_inv s.alloc a start n e)
block_size-Step {s} (exhausted i g e) = refl
block_size-Step (lease i c start g e) = refl
block_size-Step (lease_error i g) = refl
block_size-Step (other_lease n) = refl

boot-Inv : (a : Allocator) (counter : ℕ) → Inv (boot a counter)
boot-Inv a counter = ground arith

Reach-Inv :
    {s t : System} → 0 < s.alloc.block_size → Inv s → Reach s t → Inv t × (0 < t.alloc.block_size)
Reach-Inv pos v here = (v, pos)
Reach-Inv pos v (more r st) =
    let (w, p) = Reach-Inv pos v r in (Step-Inv p st w, rw (block_size-Step st) p)

-- Whatever the goroutines and the other leaseholders do, and in whatever order their critical
-- sections run, no number is handed out twice, and every number handed out, and the whole of the
-- current block, lies below the counter in Postgres.
pub Reach-IsDistinct :
    (a : Allocator) (counter : ℕ) (t : System)
    → 0 < a.block_size
    → Reach (boot a counter) t
    → IsDistinct t.handed × ((e : ℕ) → In e t.handed → e < t.counter) × (t.alloc.end ≤ t.counter)
Reach-IsDistinct a counter t pos r =
    let (v, _) = Reach-Inv pos (boot-Inv a counter) r in (v.distinct, v.handed_below, v.end_le)
