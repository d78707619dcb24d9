-- ===== src/Ring/Seq/Backward.antt =====
-- Slow calls that interleave, back/internal/ring/seq/seq.go.
use upcontrol.Prelude.{
  ℕ, zero, suc, ◌+◌, ◌-◌, ◌≤◌, ◌<◌, ◌≡◌, refl, inl, inr, List, [], ◌∷◌, In, arith,
}
use upcontrol.Ring.Seq.{Allocator, fast_path, lease_seq_block, slow_path}
use upcontrol.Ring.Seq.Steps.{
  idle, waiting, holding, System, update, Step, fast, exhausted, lease, slow, Reach, here, more,
  boot,
}

Reach-trans : {s t u : System} → Reach s t → Reach t u → Reach s u
Reach-trans r here = r
Reach-trans r (more q st) = more (Reach-trans r q) st

-- Goroutine 2 uses up the current block.
drain :
    (k : ℕ) (s : System)
    → s.goroutines 2 ≡ idle
    → s.alloc.next + k ≡ s.alloc.end
    → (t : System) × Reach s t
      × (t.alloc ≡ record s.alloc { next = s.alloc.end })
      × (t.goroutines ≡ s.goroutines)
      × ((e : ℕ) → In e s.handed → In e t.handed)
drain zero s g e = (s, here, ground arith, refl, λ x h. h)
drain (suc k) s g e =
    let u : System = record s {
      alloc = record s.alloc { next = s.alloc.next + 1 };
      handed = s.alloc.next ∷ s.handed;
    } in
    let st : Step s u = fast 2 s.alloc.next u.alloc g (unfold fast_path in ground arith) in
    let (t, r, a, gs, ins) = drain k u g (omega arith) in
    (t, Reach-trans (more here st) r, a, gs, λ x h. ins x (inr h))

-- For every block size and every counter there is an interleaving of two slow calls after which a
-- number is handed out that is smaller than one handed out before it.
pub numbers_go_back :
    (a : Allocator) (counter : ℕ)
    → 0 < a.block_size
    → (t : System) × (earlier later : ℕ) × (before : List ℕ) × Reach (boot a counter) t
      × (t.handed ≡ later ∷ before)
      × In earlier before
      × (later < earlier)
numbers_go_back a counter pos =
    let b = a.block_size in
    let s0 : System = boot a counter in
    let s1 : System = record s0 { goroutines = update s0.goroutines 0 waiting } in
    let s2 : System = record s1 { goroutines = update s1.goroutines 1 waiting } in
    let s3 : System = record s2 {
      counter = counter + b;
      goroutines = update s2.goroutines 0 (holding counter);
    } in
    let s4 : System = record s3 {
      counter = counter + b + b;
      goroutines = update s3.goroutines 1 (holding (counter + b));
    } in
    let s5 : System = record s4 {
      alloc = record s4.alloc { next = counter + b + 1; end = counter + b + b };
      goroutines = update s4.goroutines 1 idle;
      handed = (counter + b) ∷ [];
    } in
    let r : Reach s0 s5 =
      more
        (more
          (more
            (more (more here (exhausted 0 refl (unfold fast_path in refl)))
              (exhausted 1 refl (unfold fast_path in refl)))
            (lease 0 (counter + b) counter refl (unfold lease_seq_block in refl)))
          (lease 1 (counter + b + b) (counter + b) refl (unfold lease_seq_block in refl)))
        (slow 1 (counter + b) (counter + b) s5.alloc refl (unfold slow_path in refl)) in
    let (t, q, al, gs, ins) = drain (b - 1) s5 refl (omega arith) in
    let used : t.alloc.end ≤ t.alloc.next = ground arith in
    let u : System = record t {
      alloc = record t.alloc { next = counter + 1; end = counter + t.alloc.block_size };
      goroutines = update t.goroutines 0 idle;
      handed = counter ∷ t.handed;
    } in
    let st : Step t u =
      slow 0 counter counter u.alloc (rw gs refl) (unfold slow_path in ground arith) in
    (
      u,
      counter + b,
      counter,
      t.handed,
      Reach-trans r (more q st),
      refl,
      ins (counter + b) (inl refl),
      omega arith,
    )
