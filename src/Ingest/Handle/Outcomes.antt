-- ===== src/Ingest/Handle/Outcomes.antt =====
-- How POST /i can end, back/internal/ingest/ingest.go.
use upcontrol.Prelude.{ℕ, ◌+◌, ◌≡◌, Bool, true, false, List, ◌++◌, length, map, All}
use upcontrol.Ingest.Decode.Records.{Record}
use upcontrol.Ingest.Decode.Bodies.{decode}
use upcontrol.Ingest.Overload.{compute_overload}
use upcontrol.Ingest.Rows.{Tenant, RowEnvelope, tally}
use upcontrol.Ingest.Rows.Built.{AreRowsOf}
use upcontrol.Ingest.Metrics.{MetricEnvelope}
use upcontrol.Ingest.Public.Events.{IsNamed}
use upcontrol.Ingest.Handle.{
  Request, Receipt, Answer, received, Deps, State, is_public, log_row, metric_row,
}

abbrev pub is_received : Answer → Bool
is_received (received _) = true
is_received _ = false

module _ {S I : Type 0} (d : Deps S I) where
  -- A batch that is taken. `refused` records of a public key name no event; the others are readings
  -- or become the rows; the sink gets the rows and then the readings.
  pub record IsTaken (r : Request) (st : State S I) (rc : Receipt) (st' : State S I) : Type 0 where
    pub tenant : Tenant
    pub logs : List Record
    pub rows : List RowEnvelope
    pub readings : List MetricEnvelope
    pub refused : ℕ
    pub sent : st'.sent ≡ st.sent ++ (map (log_row d) rows ++ map (metric_row d) readings)
    pub are_rows : AreRowsOf (compute_overload r.spool) tenant logs rows
    pub named : is_public tenant ≡ true → All IsNamed logs
    pub accepted : rc.accepted ≡ length rows + length readings
    pub accounted :
        rc.accepted + tally rc.warnings "class_shed" + refused
        ≡ length (decode d.codec r.body r.content_type).0

  pub data Outcome (r : Request) (st : State S I) : Answer → State S I → Type 0 where
    -- Nothing is written.
    refused :
        {a : Answer} {st' : State S I}
        → is_received a ≡ false
        → st'.sent ≡ st.sent
        → Outcome r st a st'
    taken : {rc : Receipt} {st' : State S I} → IsTaken r st rc st' → Outcome r st (received rc) st'
