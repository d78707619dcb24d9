-- ===== src/Ingest/Batcher/Limits.antt =====
-- The bytes of a batch, back/internal/ingest/batcher/batcher.go.
use upcontrol.Prelude.{
  ℕ, ◌+◌, ◌<◌, ◌≡◌, refl, sym, ◌∙◌, subst, inl, inr, String, str_eq, false, List, [], ◌∷◌, ◌++◌,
  Option, none, arith, length, leb, is_empty, Dict, get, put, get-put, Bool-cases,
}
use upcontrol.Ingest.Batcher.{
  Row, Options, Batch, empty_batch, Log, Sink, Batcher, batch_or, flush, append_row, add, pace_ok,
  eligible_keys, or_last, flush_key, flush_keys, tick, close_from, close,
}
use upcontrol.Ingest.Batcher.Conservation.{Call, add_row, tick_at, close_all, step, run}

abbrev pub size : List Row → ℕ
size [] = 0
size (r ∷ rs) = length r + size rs

size-append : (rows : List Row) (row : Row) → size (rows ++ row ∷ []) ≡ size rows + length row
size-append [] row = omega arith
size-append (r ∷ rs) row = omega (arith, size-append rs row)

pub record IsWithin (opt : Options) (ba : Batch) : Type 0 where
  pub counted : ba.bytes ≡ size ba.rows
  pub below : ba.bytes < opt.batch_bytes

pub record IsValid (b : Batcher) : Type 0 where
  pub at_key : (key : String) → IsWithin b.opt (batch_or (get b.pending key))

put-IsValid :
    (b : Batcher) (k : String) (ba : Batch) (key : String)
    → IsWithin b.opt ba
    → IsValid b
    → IsWithin b.opt (batch_or (get (put b.pending k ba) key))
put-IsValid b k ba key w v =
    subst (λ (o : Option Batch). IsWithin b.opt (batch_or o)) (sym (get-put b.pending k key ba))
      (elim (Bool-cases (str_eq k key)) [ inl e ↦ rw e w | inr e ↦ rw e (v.at_key key) ])

empty-IsWithin : (opt : Options) (now : ℕ) → 0 < opt.batch_bytes → IsWithin opt (empty_batch now)
empty-IsWithin opt now h = record { counted = refl; below = h }

positive : (b : Batcher) → IsValid b → 0 < b.opt.batch_bytes
positive b v = omega (arith, (v.at_key "").below)

flush-IsValid :
    (sink : Sink) (b : Batcher) (k : String) (rows : List Row) (now : ℕ)
    → IsValid b
    → IsValid (flush sink b k rows now).0
unfolding flush
flush-IsValid sink b k rows now v = record {
  at_key = λ key. put-IsValid b k (empty_batch now) key (empty-IsWithin b.opt now (positive b v)) v;
}

get_other :
    (b : Batcher) (k key : String) (ba : Batch)
    → str_eq k key ≡ false
    → get (put b.pending k ba) key ≡ get b.pending key
get_other b k key ba e = get-put b.pending k key ba ∙ rw e

-- The batch that went over the size is replaced by an empty one.
overwrite-IsValid :
    (b : Batcher) (k : String) (ba : Batch) (log : Log) (at : ℕ)
    → IsValid b
    → IsValid (record b { pending = put (put b.pending k ba) k (empty_batch at); log = log })
overwrite-IsValid b k ba log at v = record {
  at_key = λ key.
      subst (λ (o : Option Batch). IsWithin b.opt (batch_or o))
        (sym (get-put (put b.pending k ba) k key (empty_batch at)))
        (elim (Bool-cases (str_eq k key)) [
          | inl e ↦ rw e (empty-IsWithin b.opt at (positive b v))
          | inr e ↦ rw e (
              subst (λ (o : Option Batch). IsWithin b.opt (batch_or o))
                (sym (get_other b k key ba e)) (v.at_key key))
        ]);
}

add-IsValid :
    (sink : Sink) (b : Batcher) (k : String) (row : Row) (now at : ℕ)
    → IsValid b
    → IsValid (add sink b k row now at).0
unfolding add
add-IsValid sink b k row now at v =
    let ba = append_row (batch_or (get b.pending k)) row now in
    let b' : Batcher = record b { pending = put b.pending k ba } in
    let counted : ba.bytes ≡ size ba.rows =
      omega (arith, (v.at_key k).counted, size-append (batch_or (get b.pending k)).rows row) in
    elim (Bool-cases (leb b.opt.batch_bytes ba.bytes)) [
      | inl e ↦ rw (e, add) (overwrite-IsValid b k ba (b.log ++ (k, ba.rows) ∷ []) at v)
      | inr e ↦
          rw (e, add)
            (record {
              at_key = λ key.
                  put-IsValid b k ba key (record { counted = counted; below = ground arith }) v;
            })
    ]

flush_key-IsValid :
    (sink : Sink) (now : ℕ) (b : Batcher) (k : String)
    → IsValid b
    → IsValid (flush_key sink now b k).0
unfolding flush_key
flush_key-IsValid sink now b k v = elim (Bool-cases (is_empty (batch_or (get b.pending k)).rows)) [
  | inl q ↦ rw (q, flush_key) v
  | inr q ↦ elim (Bool-cases (pace_ok b.opt (batch_or (get b.pending k)) now)) [
    | inl r ↦ rw (q, flush_key) (rw (r, flush_key) (flush-IsValid sink b k _ now v))
    | inr r ↦ rw (q, flush_key) (rw (r, flush_key) v)
  ]
]

flush_keys-IsValid :
    (sink : Sink) (now : ℕ) (b : Batcher) (err : Option ℕ) (ks : List String)
    → IsValid b
    → IsValid (flush_keys sink now b err ks).0
unfolding flush_keys
flush_keys-IsValid sink now b err [] v = v
flush_keys-IsValid sink now b err (k ∷ ks) v =
    flush_keys-IsValid sink now (flush_key sink now b k).0 (or_last err (flush_key sink now b k).1)
      ks (flush_key-IsValid sink now b k v)

close_from_pending :
    (sink : Sink) (b : Batcher) (err : Option ℕ) (m : Dict Batch)
    → ((close_from sink b err m).0.pending ≡ b.pending) × ((close_from sink b err m).0.opt ≡ b.opt)
unfolding close_from
close_from_pending sink b err [] = (refl, refl)
close_from_pending sink b err ((k, ba) ∷ m) = elim (Bool-cases (is_empty ba.rows)) [
  | inl e ↦ rw (e, close_from) (close_from_pending sink b err m)
  | inr e ↦
      rw (e, close_from)
        (close_from_pending sink (record b { log = b.log ++ (k, ba.rows) ∷ [] })
          (or_last err (sink b.log k ba.rows)) m)
]

nothing-IsValid : (b : Batcher) → b.pending ≡ [] → 0 < b.opt.batch_bytes → IsValid b
unfolding get
nothing-IsValid b e pos = record { at_key = λ key. rw e (empty-IsWithin b.opt 0 pos) }

step-IsValid : (sink : Sink) (b : Batcher) (c : Call) → IsValid b → IsValid (step sink b c)
unfolding tick close
step-IsValid sink b (add_row k row now at) v = add-IsValid sink b k row now at v
step-IsValid sink b (tick_at now) v =
    flush_keys-IsValid sink now b none (eligible_keys b.opt now b.pending) v
step-IsValid sink b close_all v =
    let (p, o) = close_from_pending sink (record b { pending = [] }) none b.pending in
    nothing-IsValid (close sink b).0 p (rw o (positive b v))

-- Over any calls, at every key the byte count is that of the rows that wait, and it stays below the
-- size at which a batch is flushed: a batch over it is handed over within the call that made it so.
pub run-IsValid : (sink : Sink) (b : Batcher) (cs : List Call) → IsValid b → IsValid (run sink b cs)
run-IsValid sink b [] v = v
run-IsValid sink b (c ∷ cs) v = run-IsValid sink (step sink b c) cs (step-IsValid sink b c v)
