-- ===== src/Ingest/Batcher/Conservation.antt =====
-- The rows on their way to the sink, back/internal/ingest/batcher/batcher.go.
use upcontrol.Prelude.{
  ℕ, ◌≡◌, refl, sym, ◌∙◌, ap, subst, String, str_eq, List, [], ◌∷◌, ◌++◌, none, IsDistinct, Dict,
  keys, get, if◌then◌else◌,
}
use mathlib.Core.List.{append-nil, append_assoc}
use upcontrol.Ingest.Batcher.{Row, Batch, Sink, Batcher, add, eligible_keys, tick, close}
use upcontrol.Ingest.Batcher.Flow.{sent, held, flow, held_nothing, flow-add, flow-flush_keys}
use upcontrol.Ingest.Batcher.Close.{IsKeyed, IsKeyed-add, IsKeyed-flush_keys, sent-close_from}

-- A call of the batcher: a row, a tick of the caller's timer, or the close.
pub data Call : Type 0 where
  add_row : String → Row → ℕ → ℕ → Call
  tick_at : ℕ → Call
  close_all : Call

abbrev pub step : Sink → Batcher → Call → Batcher
step sink b (add_row k row now at) = (add sink b k row now at).0
step sink b (tick_at now) = (tick sink b now).0
step sink b close_all = (close sink b).0

abbrev pub run : Sink → Batcher → List Call → Batcher
run sink b [] = b
run sink b (c ∷ cs) = run sink (step sink b c) cs

-- The rows that the calls add under a key.
abbrev pub rows_for : String → List Call → List Row
rows_for key [] = []
rows_for key (add_row k row _ _ ∷ cs) = (if str_eq k key then row ∷ [] else []) ++ rows_for key cs
rows_for key (tick_at _ ∷ cs) = rows_for key cs
rows_for key (close_all ∷ cs) = rows_for key cs

IsKeyed-step : (sink : Sink) (b : Batcher) (c : Call) → IsKeyed b → IsKeyed (step sink b c)
unfolding tick close
IsKeyed-step sink b (add_row k row now at) d = IsKeyed-add sink b k row now at d
IsKeyed-step sink b (tick_at now) d =
    IsKeyed-flush_keys sink now b none (eligible_keys b.opt now b.pending) d
IsKeyed-step sink b close_all d =
    let (_, p) = sent-close_from sink "" (record b { pending = [] }) none b.pending d in
    subst (λ (m : Dict Batch). IsDistinct (keys m)) (sym p) tt

flow-step :
    (sink : Sink) (b : Batcher) (c : Call) (key : String)
    → IsKeyed b
    → flow key (step sink b c) ≡ flow key b ++ rows_for key (c ∷ [])
unfolding tick close
flow-step sink b (add_row k row now at) key d =
    flow-add sink b k key row now at ∙ ap (λ (r : List Row). flow key b ++ r) (sym (append-nil _))
flow-step sink b (tick_at now) key d =
    flow-flush_keys sink now b none (eligible_keys b.opt now b.pending) key ∙ sym (append-nil _)
flow-step sink b close_all key d =
    let (s, p) = sent-close_from sink key (record b { pending = [] }) none b.pending d in
    ap (λ (m : Dict Batch). sent key (close sink b).0.log ++ held key m) p
    ∙ ap (λ (r : List Row). sent key (close sink b).0.log ++ r) (held_nothing key)
    ∙ append-nil _
    ∙ s
    ∙ sym (append-nil _)

rows_for-cons :
    (key : String) (c : Call) (cs : List Call)
    → rows_for key (c ∷ cs) ≡ rows_for key (c ∷ []) ++ rows_for key cs
rows_for-cons key (add_row k row now at) cs = rw append-nil
rows_for-cons key (tick_at now) cs = refl
rows_for-cons key close_all cs = refl

flow-run :
    (sink : Sink) (b : Batcher) (cs : List Call) (key : String)
    → IsKeyed b
    → flow key (run sink b cs) ≡ flow key b ++ rows_for key cs
flow-run sink b [] key d = sym (append-nil (flow key b))
flow-run sink b (c ∷ cs) key d =
    flow-run sink (step sink b c) cs key (IsKeyed-step sink b c d)
    ∙ ap (λ (r : List Row). r ++ rows_for key cs) (flow-step sink b c key d)
    ∙ append_assoc (flow key b) (rows_for key (c ∷ [])) (rows_for key cs)
    ∙ ap (λ (r : List Row). flow key b ++ r) (sym (rows_for-cons key c cs))

empty_flow : (b : Batcher) (key : String) → b.pending ≡ [] → b.log ≡ [] → flow key b ≡ []
unfolding get
empty_flow b key p l =
    ap (λ (m : Dict Batch). sent key b.log ++ held key m) p ∙ append-nil _ ∙ ap (sent key) l

IsKeyed-run : (sink : Sink) (b : Batcher) (cs : List Call) → IsKeyed b → IsKeyed (run sink b cs)
IsKeyed-run sink b [] d = d
IsKeyed-run sink b (c ∷ cs) d = IsKeyed-run sink (step sink b c) cs (IsKeyed-step sink b c d)

-- Over any calls, whatever the sink answers, what the sink was handed for a key followed by what
-- still waits is exactly the rows added under that key, each once and in the order of the calls.
pub run-flow :
    (sink : Sink) (b : Batcher) (cs : List Call) (key : String)
    → b.pending ≡ []
    → b.log ≡ []
    → sent key (run sink b cs).log ++ held key (run sink b cs).pending ≡ rows_for key cs
run-flow sink b cs key p l =
    let d : IsKeyed b = subst (λ (m : Dict Batch). IsDistinct (keys m)) (sym p) tt in
    flow-run sink b cs key d ∙ ap (λ (r : List Row). r ++ rows_for key cs) (empty_flow b key p l)

-- After any calls and a close nothing waits, and the sink has been handed every row of every key, in
-- order.
pub close_drains :
    (sink : Sink) (b : Batcher) (cs : List Call) (key : String)
    → b.pending ≡ []
    → b.log ≡ []
    → let c = (close sink (run sink b cs)).0 in
      (c.pending ≡ []) × (sent key c.log ≡ rows_for key cs)
close_drains sink b cs key p l =
    let d : IsKeyed b = subst (λ (m : Dict Batch). IsDistinct (keys m)) (sym p) tt in
    let r = run sink b cs in
    let (s, q) =
      sent-close_from sink key (record r { pending = [] }) none r.pending
        (IsKeyed-run sink b cs d) in
    unfold close in (q, s ∙ run-flow sink b cs key p l)
