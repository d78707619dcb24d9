-- ===== src/Ingest/Batcher/Flow.antt =====
-- The rows of a key through an add and a flush.
use upcontrol.Prelude.{
  ℕ, ◌≡◌, refl, sym, ◌∙◌, ap, inl, inr, String, str_eq, eq_iff, Bool, true, false, List, [], ◌∷◌,
  ◌++◌, Option, some, leb, is_empty, Dict, get, put, get-put, Bool-cases, if◌then◌else◌,
}
use mathlib.Core.List.{append-nil, append_assoc}
use upcontrol.Ingest.Batcher.{
  Row, Batch, Log, Sink, Batcher, batch_or, flush, append_row, add, pace_ok, or_last, flush_key,
  flush_keys,
}

-- The rows that the sink was handed for a key, and those that still wait.
abbrev pub sent : String → Log → List Row
sent key [] = []
sent key ((k, rows) ∷ log) = if str_eq k key then rows ++ sent key log else sent key log

abbrev pub held : String → Dict Batch → List Row
held key pending = (batch_or (get pending key)).rows

abbrev pub flow : String → Batcher → List Row
flow key b = sent key b.log ++ held key b.pending

pub sent-append : (key : String) (l m : Log) → sent key (l ++ m) ≡ sent key l ++ sent key m
sent-append key [] m = refl
sent-append key ((k, rows) ∷ l) m = elim (Bool-cases (str_eq k key)) [
  | inl e ↦ rw e (rw (sent-append key l m, append_assoc) refl)
  | inr e ↦ rw e (sent-append key l m)
]

pub held_if :
    (c : Bool) (ba : Batch) (o : Option Batch)
    → (batch_or (if c then some ba else o)).rows ≡ (if c then ba.rows else (batch_or o).rows)
held_if true ba o = refl
held_if false ba o = refl

pub held_nothing : (key : String) → held key [] ≡ []
unfolding get
held_nothing key = refl

pub held-put :
    (key k : String) (p : Dict Batch) (ba : Batch)
    → held key (put p k ba) ≡ (if str_eq k key then ba.rows else held key p)
held-put key k p ba =
    ap (λ (o : Option Batch). (batch_or o).rows) (get-put p k key ba)
    ∙ held_if (str_eq k key) ba (get p key)

pub flow-flush :
    (sink : Sink) (b : Batcher) (k key : String) (rows : List Row) (now : ℕ)
    → rows ≡ held k b.pending
    → flow key (flush sink b k rows now).0 ≡ flow key b
unfolding flush
flow-flush sink b k key rows now e =
    rw (sent-append, held-put)
      (elim (Bool-cases (str_eq k key)) [
        | inl q ↦ rw q (
            rw (append-nil (sent key b.log ++ (rows ++ [])), append-nil rows, e)
              (ap (λ (j : String). sent key b.log ++ held j b.pending) ((eq_iff k key).0 q)))
        | inr q ↦ rw q (rw append-nil)
      ])

abbrev pub added : String → String → Row → List Row
added key k row = if str_eq k key then row ∷ [] else []

pub flow-put :
    (b : Batcher) (k key : String) (row : Row) (now : ℕ)
    → flow key
        (record b { pending = put b.pending k (append_row (batch_or (get b.pending k)) row now) })
      ≡ flow key b ++ added key k row
unfolding append_row
flow-put b k key row now =
    let ba = append_row (batch_or (get b.pending k)) row now in
    rw (held-put key k b.pending ba) (elim (Bool-cases (str_eq k key)) [
      | inl q ↦ rw q (
          rw append_assoc (
            ap (λ (j : String). sent key b.log ++ (held j b.pending ++ row ∷ []))
              ((eq_iff k key).0 q)))
      | inr q ↦ rw q (sym (append-nil _))
    ])

pub flow-add :
    (sink : Sink) (b : Batcher) (k key : String) (row : Row) (now at : ℕ)
    → flow key (add sink b k row now at).0 ≡ flow key b ++ added key k row
unfolding add
flow-add sink b k key row now at =
    let ba = append_row (batch_or (get b.pending k)) row now in
    let b' : Batcher = record b { pending = put b.pending k ba } in
    let rows : ba.rows ≡ held k b'.pending =
      sym (held-put k k b.pending ba ∙ (rw ((eq_iff k k).1 refl))) in
    elim (Bool-cases (leb b.opt.batch_bytes ba.bytes)) [
      | inl q ↦ rw (q, add) (flow-flush sink b' k key ba.rows at rows ∙ flow-put b k key row now)
      | inr q ↦ rw (q, add) (flow-put b k key row now)
    ]

pub flow-flush_key :
    (sink : Sink) (now : ℕ) (b : Batcher) (k key : String)
    → flow key (flush_key sink now b k).0 ≡ flow key b
unfolding flush_key
flow-flush_key sink now b k key = elim (Bool-cases (is_empty (held k b.pending))) [
  | inl q ↦ rw (q, flush_key)
  | inr q ↦ elim (Bool-cases (pace_ok b.opt (batch_or (get b.pending k)) now)) [
    | inl r ↦
        rw (q, flush_key) (rw (r, flush_key) (flow-flush sink b k key (held k b.pending) now refl))
    | inr r ↦ rw (q, flush_key) (rw (r, flush_key))
  ]
]

pub flow-flush_keys :
    (sink : Sink) (now : ℕ) (b : Batcher) (err : Option ℕ) (ks : List String) (key : String)
    → flow key (flush_keys sink now b err ks).0 ≡ flow key b
unfolding flush_keys
flow-flush_keys sink now b err [] key = refl
flow-flush_keys sink now b err (k ∷ ks) key =
    flow-flush_keys sink now (flush_key sink now b k).0 (or_last err (flush_key sink now b k).1) ks
      key
    ∙ flow-flush_key sink now b k key
