-- ===== src/Ring/Seq/Sequential.antt =====
-- `Next` called by one goroutine at a time, with other leaseholders between the calls.
use upcontrol.Prelude.{
  ℕ, ◌+◌, ◌≤◌, ◌<◌, ◌≡◌, refl, List, [], ◌∷◌, ◌⊎◌, inl, inr, Bool-cases, arith, ltb, if◌then◌else◌,
}
use upcontrol.Ring.Seq.{
  Allocator, Leaser, absent, failing, working, Result, ok, err, next_seq, NextError, no_leaser,
  lease_failed,
}

-- A call, with what the leaser does if it is asked, or a lease of `n` by another process.
pub data Action : Type 0 where
  call : Leaser → Action
  elsewhere : ℕ → Action

abbrev collect : Result ℕ → List ℕ → List ℕ
collect (ok v) vs = v ∷ vs
collect (err _) vs = vs

-- The numbers that the calls return, in order.
unfoldable pub run : Allocator → ℕ → List Action → List ℕ
run a counter [] = []
run a counter (call l ∷ acts) =
    let (r, a', counter') = next_seq l a counter in collect r (run a' counter' acts)
run a counter (elsewhere n ∷ acts) = run a (counter + n) acts

-- Each number is larger than the one before, and the first is at least `low`.
abbrev pub Ascends : ℕ → List ℕ → Type 0
Ascends low [] = Unit
Ascends low (v ∷ vs) = (low ≤ v) × Ascends (v + 1) vs

-- The least number that the next call can return.
abbrev pub frontier : Allocator → ℕ → ℕ
frontier a counter = if ltb a.next a.end then a.next else counter

Ascends-mono : (low low' : ℕ) (vs : List ℕ) → low ≤ low' → Ascends low' vs → Ascends low vs
Ascends-mono low low' [] h a = tt
Ascends-mono low low' (v ∷ vs) h a = (omega (arith, a.0), a.1)

-- What one call does: an error moves nothing back, a number lies between the two frontiers.
pub call_step :
    (l : Leaser) (a : Allocator) (counter : ℕ)
    → 0 < a.block_size
    → a.end ≤ counter
    → let (r, a', counter') = next_seq l a counter in
      (0 < a'.block_size)
      × (a'.end ≤ counter')
      × (((e : NextError) × (r ≡ err e) × (frontier a counter ≤ frontier a' counter'))
          ⊎ ((v : ℕ) × (r ≡ ok v) × (frontier a counter ≤ v) × (v + 1 ≤ frontier a' counter')))
unfolding next_seq
call_step absent a counter pos h = (pos, h, inl (no_leaser, refl, omega arith))
call_step failing a counter pos h = elim (Bool-cases (ltb a.next a.end)) [
  | inl e ↦ rw (e, next_seq) (pos, h, inr (a.next, refl, omega arith, ground arith))
  | inr e ↦ rw (e, next_seq) (pos, h, inl (lease_failed, refl, ground arith))
]
call_step working a counter pos h = elim (Bool-cases (ltb a.next a.end)) [
  | inl e ↦ rw (e, next_seq) (pos, h, inr (a.next, refl, omega arith, ground arith))
  | inr e ↦ (ground arith, ground arith, inr (counter, ground arith, ground arith, ground arith))
]

Ascends-run :
    (a : Allocator) (counter : ℕ) (acts : List Action)
    → 0 < a.block_size
    → a.end ≤ counter
    → Ascends (frontier a counter) (run a counter acts)
unfolding run
Ascends-run a counter [] pos h = tt
Ascends-run a counter (elsewhere n ∷ acts) pos h =
    Ascends-mono (frontier a counter) (frontier a (counter + n)) (run a (counter + n) acts)
      (ground arith) (Ascends-run a (counter + n) acts pos (omega arith))
Ascends-run a counter (call l ∷ acts) pos h =
    let (r, a', c') = next_seq l a counter in
    let (p, q, d) = call_step l a counter pos h in
    let ih = Ascends-run a' c' acts p q in
    elim d [
      | inl (e, er, le) ↦
          rw er (Ascends-mono (frontier a counter) (frontier a' c') (run a' c' acts) le ih)
      | inr (v, er, low, high) ↦
          rw er (low, Ascends-mono (v + 1) (frontier a' c') (run a' c' acts) high ih)
    ]

-- Called by one goroutine at a time, a new allocator returns strictly ascending numbers, none below
-- the counter that it started from, whatever other processes lease in between and whenever a lease
-- fails.
pub run-Ascends :
    (a : Allocator) (counter : ℕ) (acts : List Action)
    → 0 < a.block_size
    → a.next ≡ 0
    → a.end ≡ 0
    → Ascends counter (run a counter acts)
run-Ascends a counter acts pos n e =
    Ascends-mono counter (frontier a counter) (run a counter acts) (ground arith)
      (Ascends-run a counter acts pos (omega arith))
