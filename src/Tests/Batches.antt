-- ===== src/Tests/Batches.antt =====
-- The batcher at concrete inputs.
use upcontrol.Prelude.{
  ℕ, ◌≡◌, refl, List, [], ◌∷◌, ◌++◌, none, some, arith, pos, negsuc, get, put, is_empty,
  if◌then◌else◌, sub,
}
use upcontrol.Ingest.Batcher.{Row, Sink, Batcher, new, add, tick, close}
use upcontrol.Ingest.Batcher.Flow.{sent, held}
use upcontrol.Ingest.Batcher.Conservation.{
  Call, add_row, tick_at, run, rows_for, run-flow, close_drains,
}
use upcontrol.Ingest.Batcher.Limits.{IsValid, run-IsValid}

-- A sink that fails on everything but its first batch.
abbrev flaky : Sink
flaky log key rows = if is_empty log then none else some 1

abbrev fresh : Batcher
fresh = record {
  opt = record { batch_bytes = 3; batch_age = 200; min_interval = 1000 };
  pending = [];
  log = [];
}

abbrev calls : List Call
calls =
    add_row "a" (1 ∷ 2 ∷ []) 10 11
    ∷ add_row "b" (9 ∷ []) 20 21
    ∷ add_row "a" (3 ∷ []) 30 31
    ∷ tick_at 400
    ∷ add_row "a" (4 ∷ []) 500 501
    ∷ []

abbrev row : List ℕ → Row
row r = r

calls_log :
    (run flaky fresh calls).log
    ≡ ("a", row (1 ∷ 2 ∷ []) ∷ row (3 ∷ []) ∷ []) ∷ ("b", row (9 ∷ []) ∷ []) ∷ []
unfolding add tick get put sub
calls_log = refl

defaults_kept : (new (pos 0) (negsuc 4) (pos 5)).opt.batch_age ≡ 200000000
unfolding new
defaults_kept = refl

run-flow_example :
    sent "a" (run flaky fresh calls).log ++ held "a" (run flaky fresh calls).pending
    ≡ rows_for "a" calls
run-flow_example = run-flow flaky fresh calls "a" refl refl

close_drains_example :
    ((close flaky (run flaky fresh calls)).0.pending ≡ [])
    × (sent "a" (close flaky (run flaky fresh calls)).0.log ≡ rows_for "a" calls)
close_drains_example = close_drains flaky fresh calls "a" refl refl

fresh-IsValid : IsValid fresh
unfolding get
fresh-IsValid = record { at_key = λ key. omega arith }

run-IsValid_example : IsValid (run flaky fresh calls)
run-IsValid_example = run-IsValid flaky fresh calls fresh-IsValid
