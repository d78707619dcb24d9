-- ===== src/Ingest/Rows/Numbered.antt =====
-- The sequence numbers of a batch's rows, back/internal/ingest/ingest.go over what SeqAllocator
-- promises.
use upcontrol.Prelude.{
  ℕ, ◌+◌, ◌≤◌, ◌≡◌, refl, ◌⊎◌, inl, inr, Option, none, some, List, [], ◌∷◌, arith, Dict, Bool-cases,
}
use upcontrol.Ingest.Decode.Records.{Record}
use upcontrol.Ingest.Overload.{OverloadDecision, is_shed}
use upcontrol.Ingest.Rows.{
  Tenant, RowEnvelope, warn, Shared, Services, number, numbered, build_row, build_rows,
}
use upcontrol.Ingest.Rows.Built.{prepare-Prepared}

-- A row has no number, or one that is larger than those before it and at least `low`.
abbrev pub Rising : ℕ → List RowEnvelope → Type 0
Rising low [] = Unit
Rising low (row ∷ rows) =
    ((row.seq ≡ 0) × Rising low rows) ⊎ ((low ≤ row.seq) × Rising (row.seq + 1) rows)

Rising-mono :
    (low low' : ℕ) (rows : List RowEnvelope) → low ≤ low' → Rising low' rows → Rising low rows
Rising-mono low low' [] l r = tt
Rising-mono low low' (row ∷ rows) l (inl (z, r)) = inl (z, Rising-mono low low' rows l r)
Rising-mono low low' (row ∷ rows) l (inr (m, r)) = inr (omega arith, r)

-- An answer of the allocator whose next number was at least `low` and is now at least `low'`.
abbrev pub IsLater : ℕ → Option ℕ → ℕ → Type 0
IsLater low none low' = low ≤ low'
IsLater low (some n) low' = (low ≤ n) × (n + 1 ≤ low')

-- What SeqAllocator promises: its numbers ascend from `low`, an error moves nothing back, and the
-- allocator stays sound.
pub record IsOrdered {S : Type 0} (next : S → ℕ → S × Option ℕ) : Type 1 where
  pub Sound : S → Type 0
  pub low : S → ℕ
  pub step :
      (s : S) (p : ℕ)
      → Sound s
      → Sound (next s p).0 × IsLater (low s) (next s p).1 (low (next s p).0)

module _ {S : Type 0} (c : Services S) (o : IsOrdered c.next) where
  abbrev pub IsSound : Option S → Type 0
  IsSound none = Unit
  IsSound (some s) = o.Sound s

  abbrev pub least : Option S → ℕ
  least none = 0
  least (some s) = o.low s

  -- The row's number lies between what could come before and after it.
  abbrev Between : ℕ → RowEnvelope → ℕ → Type 0
  Between low row low' = ((row.seq ≡ 0) × (low ≤ low')) ⊎ ((low ≤ row.seq) × (row.seq + 1 ≤ low'))

  numbered-Between :
      (env : RowEnvelope) (low : ℕ) (r : S × Option ℕ)
      → env.seq ≡ 0
      → o.Sound r.0
      → IsLater low r.1 (o.low r.0)
      → IsSound (numbered env r).1 × Between low (numbered env r).0 (least (numbered env r).1)
  numbered-Between env low (s, none) z sound later = (sound, inl (z, later))
  numbered-Between env low (s, some n) z sound later = (sound, inr later)

  number-Between :
      (t : Tenant) (seq : Option S) (env : RowEnvelope)
      → env.seq ≡ 0
      → IsSound seq
      → IsSound (number c t seq env).1
        × Between (least seq) (number c t seq env).0 (least (number c t seq env).1)
  unfolding number
  number-Between t none env z sound = (tt, inl (z, omega arith))
  number-Between t (some s) env z sound =
      let (after, later) = o.step s t.project_id sound in
      numbered-Between env (o.low s) (c.next s t.project_id) z after later

  -- The rows of a batch have rising sequence numbers, in the order of their records, from the least
  -- that the allocator can hand out; a row for which it fails has none. The allocator's numbers
  -- ascend.
  pub build_rows-Rising :
      (d : OverloadDecision) (t : Tenant) (recs : List Record) (sh : Shared S) (ws : Dict ℕ)
      → IsSound sh.seq
      → (r : List RowEnvelope × Shared S × Dict ℕ) × (build_rows c d t recs sh ws ≡ some r)
        × Rising (least sh.seq) r.0
  unfolding build_rows build_row
  build_rows-Rising d t [] sh ws sound = (([], sh, ws), refl, tt)
  build_rows-Rising d t (rec ∷ recs) sh ws sound =
      let p = prepare-Prepared c t rec sh.card ws in
      let (card, env, told) = p.result in
      let (row, seq) = number c t sh.seq env in
      let (after, between) = number-Between t sh.seq env p.unnumbered sound in
      elim (Bool-cases (is_shed d env.level)) [
        | inl e ↦
            let (r, returns, rising) =
              build_rows-Rising d t recs (record sh { card = card }) (warn told "class_shed" 1)
                sound in
            (r, (rw (p.returns, e, returns) refl), rising)
        | inr e ↦
            let ((rows, last, told'), returns, rising) =
              build_rows-Rising d t recs (record { card = card; seq = seq }) told after in
            (
              (row ∷ rows, last, told'),
              (rw (p.returns, e, returns) refl),
              elim between [
                | inl (z, l) ↦ inl (z, Rising-mono (least sh.seq) (least seq) rows l rising)
                | inr (l, m) ↦ inr (l, Rising-mono (row.seq + 1) (least seq) rows m rising)
              ],
            )
      ]
