-- ===== src/Ingest/Batcher/Close.antt =====
-- The keys of a batcher and its close, back/internal/ingest/batcher/batcher.go.
use upcontrol.Prelude.{
  ℕ, ◌≡◌, refl, sym, ◌∙◌, ap, subst, inl, inr, String, str_eq, eq_iff, true, List, [], ◌∷◌, ◌++◌,
  Option, leb, is_empty, In, IsDistinct, Dict, keys, keys-put-IsDistinct, get_absent, get, put,
  Bool-cases, if◌then◌else◌,
}
use mathlib.Core.List.{append-nil, append_assoc}
use upcontrol.Ingest.Batcher.{
  Row, Batch, empty_batch, Sink, Batcher, batch_or, flush, append_row, add, pace_ok, or_last,
  flush_key, flush_keys, close_from,
}
use upcontrol.Ingest.Batcher.Flow.{sent, held, sent-append, held_if}

abbrev pub IsKeyed : Batcher → Type 0
IsKeyed b = IsDistinct (keys b.pending)

IsKeyed-flush :
    (sink : Sink) (b : Batcher) (k : String) (rows : List Row) (now : ℕ)
    → IsKeyed b
    → IsKeyed (flush sink b k rows now).0
unfolding flush
IsKeyed-flush sink b k rows now d = keys-put-IsDistinct b.pending k (empty_batch now) d

pub IsKeyed-add :
    (sink : Sink) (b : Batcher) (k : String) (row : Row) (now at : ℕ)
    → IsKeyed b
    → IsKeyed (add sink b k row now at).0
unfolding add
IsKeyed-add sink b k row now at d =
    let ba = append_row (batch_or (get b.pending k)) row now in
    let b' : Batcher = record b { pending = put b.pending k ba } in
    let d' = keys-put-IsDistinct b.pending k ba d in
    elim (Bool-cases (leb b.opt.batch_bytes ba.bytes)) [
      | inl q ↦ rw (q, add) (IsKeyed-flush sink b' k ba.rows at d')
      | inr q ↦ rw (q, add) d'
    ]

IsKeyed-flush_key :
    (sink : Sink) (now : ℕ) (b : Batcher) (k : String)
    → IsKeyed b
    → IsKeyed (flush_key sink now b k).0
unfolding flush_key
IsKeyed-flush_key sink now b k d = elim (Bool-cases (is_empty (held k b.pending))) [
  | inl q ↦ rw (q, flush_key) d
  | inr q ↦ elim (Bool-cases (pace_ok b.opt (batch_or (get b.pending k)) now)) [
    | inl r ↦
        rw (q, flush_key) (rw (r, flush_key) (IsKeyed-flush sink b k (held k b.pending) now d))
    | inr r ↦ rw (q, flush_key) (rw (r, flush_key) d)
  ]
]

pub IsKeyed-flush_keys :
    (sink : Sink) (now : ℕ) (b : Batcher) (err : Option ℕ) (ks : List String)
    → IsKeyed b
    → IsKeyed (flush_keys sink now b err ks).0
unfolding flush_keys
IsKeyed-flush_keys sink now b err [] d = d
IsKeyed-flush_keys sink now b err (k ∷ ks) d =
    IsKeyed-flush_keys sink now (flush_key sink now b k).0 (or_last err (flush_key sink now b k).1)
      ks (IsKeyed-flush_key sink now b k d)

held-cons :
    (key k : String) (ba : Batch) (m : Dict Batch)
    → ¬ In k (keys m)
    → held key ((k, ba) ∷ m) ≡ (if str_eq k key then ba.rows else []) ++ held key m
unfolding get
held-cons key k ba m n = held_if (str_eq k key) ba (get m key) ∙ elim (Bool-cases (str_eq k key)) [
  | inl e ↦
      let absent =
        get_absent m key (subst (λ (j : String). ¬ In j (keys m)) ((eq_iff k key).0 e) n) in
      rw e
        (sym (ap (λ (o : Option Batch). ba.rows ++ (batch_or o).rows) absent ∙ append-nil ba.rows))
  | inr e ↦ rw e
]

rows_of_empty : (rows : List Row) → is_empty rows ≡ true → rows ≡ []
rows_of_empty [] h = refl
rows_of_empty (r ∷ rs) h = cc

pub sent-close_from :
    (sink : Sink) (key : String) (b : Batcher) (err : Option ℕ) (m : Dict Batch)
    → IsDistinct (keys m)
    → (sent key (close_from sink b err m).0.log ≡ sent key b.log ++ held key m)
      × ((close_from sink b err m).0.pending ≡ b.pending)
unfolding close_from
sent-close_from sink key b err [] d = (unfold get in sym (append-nil (sent key b.log)), refl)
sent-close_from sink key b err ((k, ba) ∷ m) d = elim (Bool-cases (is_empty ba.rows)) [
  | inl e ↦
      let (s, p) = sent-close_from sink key b err m d.1 in
      rw (e, close_from)
        (
          s
              ∙ ap (λ (r : List Row). sent key b.log ++ r)
                  (sym (held-cons key k ba m d.0 ∙ skip (rows_of_empty ba.rows e))),
          p,
        )
  | inr e ↦
      let b' : Batcher = record b { log = b.log ++ (k, ba.rows) ∷ [] } in
      let (s, p) = sent-close_from sink key b' (or_last err (sink b.log k ba.rows)) m d.1 in
      rw (e, close_from)
        (
          s
              ∙ (ap (λ (l : List Row). l ++ held key m) (sent-append key b.log ((k, ba.rows) ∷ []))
                  ∙ (append_assoc (sent key b.log) (sent key ((k, ba.rows) ∷ [])) (held key m)
                      ∙ ap (λ (r : List Row). sent key b.log ++ r)
                          (one ∙ sym (held-cons key k ba m d.0)))),
          p,
        )
]
  where
    skip : ba.rows ≡ [] → (if str_eq k key then ba.rows else []) ++ held key m ≡ held key m
    skip e = elim (Bool-cases (str_eq k key)) [ inl q ↦ rw q (rw e) | inr q ↦ rw q ]

    one :
        sent key ((k, ba.rows) ∷ []) ++ held key m
        ≡ (if str_eq k key then ba.rows else []) ++ held key m
    one = elim (Bool-cases (str_eq k key)) [ inl q ↦ rw q (rw append-nil) | inr q ↦ rw q ]
