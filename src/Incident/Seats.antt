-- ===== src/Incident/Seats.antt =====
-- The Telegram seats of a plan, back/internal/incident/incident.go: which of a project's channels
-- the plan silences.
pub mod Bounds
use upcontrol.Prelude.{
  ℕ, zero, suc, Bool, true, false, ◌&&◌, ◌||◌, not, List, [], ◌∷◌, Option, none, some, ℤ, pos,
  negsuc, ◌==◌, length, leb_ℤ, if◌then◌else◌,
}

pub data Kind : Type 0 where
  telegram email discord slack : Kind

abbrev pub is_telegram : Kind → Bool
is_telegram telegram = true
is_telegram _ = false

-- The columns of ListChannelsByProject that are read here.
pub record Channel : Type 0 where
  pub id : ℕ
  pub kind : Kind
  pub recipient_person_id : Option ℕ

abbrev pub is_room : Channel → Bool
is_room ch = elim ch.recipient_person_id [ none ↦ true | some _ ↦ false ]

abbrev negated : ℕ → ℤ
negated zero = pos 0
negated (suc n) = negsuc n

-- The key of a seat: the person's id, or the negated id of a room.
abbrev pub seat_of : Channel → ℤ
seat_of ch = elim ch.recipient_person_id [ none ↦ negated ch.id | some p ↦ pos p ]

abbrev pub same : ℤ → ℤ → Bool
same (pos a) (pos b) = a == b
same (negsuc a) (negsuc b) = a == b
same (pos _) (negsuc _) = false
same (negsuc _) (pos _) = false

unfoldable pub holds : List ℤ → ℤ → Bool
holds [] s = false
holds (t ∷ ts) s = same t s || holds ts s

-- One round of the loop of mutedTelegram: whether the channel is silenced, and the seats held.
unfoldable pub take_seat : ℤ → Bool → List ℤ → Channel → Bool × List ℤ
take_seat seats rooms held ch =
    if not (is_telegram ch.kind)
    then (false, held)
    else if is_room ch && not rooms
    then (true, held)
    else if holds held (seat_of ch)
    then (false, held)
    else if leb_ℤ seats (pos (length held))
    then (true, held)
    else (false, seat_of ch ∷ held)

-- The loop from the seats held so far: the ids silenced, and the seats held in the end.
unfoldable pub muted_from : ℤ → Bool → List ℤ → List Channel → List ℕ × List ℤ
muted_from seats rooms held [] = ([], held)
muted_from seats rooms held (ch ∷ chs) =
    let (silenced, held') = take_seat seats rooms held ch in
    let (ids, last) = muted_from seats rooms held' chs in
    (if silenced then ch.id ∷ ids else ids, last)

unfoldable pub muted_telegram : List Channel → ℤ → Bool → List ℕ
muted_telegram chans seats rooms = (muted_from seats rooms [] chans).0

unfoldable pub has_telegram : List Channel → Bool
has_telegram [] = false
has_telegram (ch ∷ chs) = is_telegram ch.kind || has_telegram chs

-- What the plan carries, if both of its reads succeed.
pub record Entitlement : Type 0 where
  pub telegram_recipients : ℤ
  pub telegram_rooms : Bool

unfoldable pub muted_by_plan : Option Entitlement → List Channel → List ℕ
unfolding has_telegram muted_telegram
muted_by_plan ent chans = if not (has_telegram chans) then [] else elim ent [
  | none ↦ []
  | some e ↦ muted_telegram chans e.telegram_recipients e.telegram_rooms
]
