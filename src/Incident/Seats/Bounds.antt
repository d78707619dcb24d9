-- ===== src/Incident/Seats/Bounds.antt =====
-- The seats that are held and the channels that are silenced, back/internal/incident/incident.go.
use upcontrol.Prelude.{
  ℕ, ◌≤◌, ◌≡◌, refl, sym, ◌⊎◌, inl, inr, Bool, true, false, List, [], ◌∷◌, arith, ℤ, pos, length,
  leb_ℤ, In, IsDistinct, Bool-cases, if◌then◌else◌,
}
use upcontrol.Incident.Seats.{
  Channel, is_telegram, is_room, seat_of, same, holds, take_seat, muted_from, muted_telegram,
}

same→eq : (a b : ℤ) → same a b ≡ true → a ≡ b
same→eq a b h = ground arith

same_refl : (a : ℤ) → same a a ≡ true
same_refl a = ground arith

In-of_holds : (hs : List ℤ) (s : ℤ) → holds hs s ≡ true → In s hs
unfolding holds
In-of_holds [] s h = cc
In-of_holds (t ∷ ts) s h = elim (Bool-cases (same t s)) [
  | inl e ↦ inl (sym (same→eq t s e))
  | inr e ↦ inr (In-of_holds ts s (ground arith))
]

holds_of_In : (hs : List ℤ) (s : ℤ) → In s hs → holds hs s ≡ true
unfolding holds
holds_of_In [] s i = absurd i
holds_of_In (t ∷ ts) s (inl e) = ground (arith, same_refl s)
holds_of_In (t ∷ ts) s (inr i) = ground (arith, holds_of_In ts s i)

-- The seats are distinct and no more than the plan's.
record IsSeated (seats : ℤ) (held : List ℤ) : Type 0 where
  distinct : IsDistinct held
  within : (held ≡ []) ⊎ (leb_ℤ (pos (length held)) seats ≡ true)

take_seat-IsSeated :
    (seats : ℤ) (rooms : Bool) (held : List ℤ) (ch : Channel)
    → IsSeated seats held
    → IsSeated seats (take_seat seats rooms held ch).1
unfolding take_seat
take_seat-IsSeated seats rooms held ch v = ground (arith, holds_of_In held (seat_of ch))

take_seat-keeps :
    (seats : ℤ) (rooms : Bool) (held : List ℤ) (ch : Channel) (s : ℤ)
    → In s held
    → In s (take_seat seats rooms held ch).1
unfolding take_seat
take_seat-keeps seats rooms held ch s i = ground arith

-- A Telegram channel that is not silenced has a seat.
take_seat_served :
    (seats : ℤ) (rooms : Bool) (held : List ℤ) (ch : Channel)
    → is_telegram ch.kind ≡ true
    → (take_seat seats rooms held ch).0 ≡ false
    → In (seat_of ch) (take_seat seats rooms held ch).1
unfolding take_seat
take_seat_served seats rooms held ch t h = ground (arith, In-of_holds held (seat_of ch))

-- A channel is silenced only for its kind of room, or when the seats are used up.
take_seat_silenced :
    (seats : ℤ) (rooms : Bool) (held : List ℤ) (ch : Channel)
    → (take_seat seats rooms held ch).0 ≡ true
    → (is_telegram ch.kind ≡ true)
      × (((is_room ch ≡ true) × (rooms ≡ false))
          ⊎ (leb_ℤ seats (pos (length (take_seat seats rooms held ch).1)) ≡ true))
unfolding take_seat
take_seat_silenced seats rooms held ch h = ground arith

muted_from-IsSeated :
    (seats : ℤ) (rooms : Bool) (held : List ℤ) (chs : List Channel)
    → IsSeated seats held
    → IsSeated seats (muted_from seats rooms held chs).1
unfolding muted_from
muted_from-IsSeated seats rooms held [] v = v
muted_from-IsSeated seats rooms held (ch ∷ chs) v =
    muted_from-IsSeated seats rooms (take_seat seats rooms held ch).1 chs
      (take_seat-IsSeated seats rooms held ch v)

muted_from-keeps :
    (seats : ℤ) (rooms : Bool) (held : List ℤ) (chs : List Channel) (s : ℤ)
    → In s held
    → In s (muted_from seats rooms held chs).1
unfolding muted_from
muted_from-keeps seats rooms held [] s i = i
muted_from-keeps seats rooms held (ch ∷ chs) s i =
    muted_from-keeps seats rooms (take_seat seats rooms held ch).1 chs s
      (take_seat-keeps seats rooms held ch s i)

not-In_rest : (b : Bool) (x y : ℕ) (ids : List ℕ) → ¬ In x (if b then y ∷ ids else ids) → ¬ In x ids
not-In_rest true x y ids n i = n (inr i)
not-In_rest false x y ids n i = n i

not-In_head : (b : Bool) (x : ℕ) (ids : List ℕ) → ¬ In x (if b then x ∷ ids else ids) → b ≡ false
not-In_head true x ids n = absurd (n (inl refl))
not-In_head false x ids n = refl

served_seat :
    (seats : ℤ) (rooms : Bool) (held : List ℤ) (chs : List Channel) (c : Channel)
    → In c chs
    → is_telegram c.kind ≡ true
    → ¬ In c.id (muted_from seats rooms held chs).0
    → In (seat_of c) (muted_from seats rooms held chs).1
unfolding muted_from
served_seat seats rooms held [] c i t n = absurd i
served_seat seats rooms held (ch ∷ chs) c (inl e) t n =
    let (silenced, held') = take_seat seats rooms held ch in
    muted_from-keeps seats rooms held' chs (seat_of c) (
      rw e (
        take_seat_served seats rooms held ch (rw e at t)
          (not-In_head silenced ch.id (muted_from seats rooms held' chs).0 (rw e at n))))
served_seat seats rooms held (ch ∷ chs) c (inr i) t n =
    let (silenced, held') = take_seat seats rooms held ch in
    served_seat seats rooms held' chs c i t
      (not-In_rest silenced c.id ch.id (muted_from seats rooms held' chs).0 n)

In-if :
    (b : Bool) (x y : ℕ) (ids : List ℕ)
    → In x (if b then y ∷ ids else ids)
    → ((b ≡ true) × (x ≡ y)) ⊎ In x ids
In-if true x y ids (inl e) = inl (refl, e)
In-if true x y ids (inr i) = inr i
In-if false x y ids i = inr i

length-take_seat :
    (seats : ℤ) (rooms : Bool) (held : List ℤ) (ch : Channel)
    → length held ≤ length (take_seat seats rooms held ch).1
unfolding take_seat
length-take_seat seats rooms held ch = ground arith

length-muted_from :
    (seats : ℤ) (rooms : Bool) (held : List ℤ) (chs : List Channel)
    → length held ≤ length (muted_from seats rooms held chs).1
unfolding muted_from
length-muted_from seats rooms held [] = omega arith
length-muted_from seats rooms held (ch ∷ chs) = omega (
  arith,
  length-take_seat seats rooms held ch,
  length-muted_from seats rooms (take_seat seats rooms held ch).1 chs,
)

leb_ℤ-mono : (s : ℤ) (m n : ℕ) → m ≤ n → leb_ℤ s (pos m) ≡ true → leb_ℤ s (pos n) ≡ true
leb_ℤ-mono s m n h p = ground arith

-- Why the plan may silence a channel: a room without rooms, or no seat left.
abbrev pub IsCause : ℤ → Bool → List ℤ → Channel → Type 0
IsCause seats rooms held c =
    (is_telegram c.kind ≡ true)
    × (((is_room c ≡ true) × (rooms ≡ false)) ⊎ (leb_ℤ seats (pos (length held)) ≡ true))

silenced-IsCause :
    (seats : ℤ) (rooms : Bool) (held : List ℤ) (chs : List Channel) (id : ℕ)
    → In id (muted_from seats rooms held chs).0
    → (c : Channel) × In c chs
      × (c.id ≡ id)
      × IsCause seats rooms (muted_from seats rooms held chs).1 c
unfolding muted_from
silenced-IsCause seats rooms held [] id i = absurd i
silenced-IsCause seats rooms held (ch ∷ chs) id i =
    let (silenced, held') = take_seat seats rooms held ch in
    let rest = muted_from seats rooms held' chs in
    elim (In-if silenced id ch.id rest.0 i) [
      | inl (b, e) ↦
          let (t, cause) = take_seat_silenced seats rooms held ch b in
          (
            ch,
            inl refl,
            sym e,
            (
              t,
              elim cause [
                | inl r ↦ inl r
                | inr full ↦ inr (
                    leb_ℤ-mono seats (length held') (length rest.1)
                      (length-muted_from seats rooms held' chs) full)
              ],
            ),
          )
      | inr later ↦
          let (c, at, e, cause) = silenced-IsCause seats rooms held' chs id later in
          (c, inr at, e, cause)
    ]

-- However many channels there are, those of Telegram that the plan does not silence share seats that
-- are distinct and at most as many as the plan carries: one for each person, one for each room.
pub muted_telegram_bounded :
    (chans : List Channel) (seats : ℤ) (rooms : Bool)
    → (held : List ℤ) × IsDistinct held
      × ((held ≡ []) ⊎ (leb_ℤ (pos (length held)) seats ≡ true))
      × ((c : Channel)
          → In c chans
          → is_telegram c.kind ≡ true
          → ¬ In c.id (muted_telegram chans seats rooms)
          → In (seat_of c) held)
unfolding muted_telegram
muted_telegram_bounded chans seats rooms =
    let v =
      muted_from-IsSeated seats rooms [] chans (record { distinct = tt; within = inl refl }) in
    (
      (muted_from seats rooms [] chans).1,
      v.distinct,
      v.within,
      λ c i t n. served_seat seats rooms [] chans c i t n,
    )

-- A silenced id is that of a Telegram channel of the list, and that channel is a room on a plan
-- without rooms, or the seats held in the end are at least as many as the plan carries. Nothing else
-- silences, and no other kind of channel is silenced.
pub muted_telegram-IsCause :
    (chans : List Channel) (seats : ℤ) (rooms : Bool) (id : ℕ)
    → In id (muted_telegram chans seats rooms)
    → (c : Channel) × In c chans
      × (c.id ≡ id)
      × IsCause seats rooms (muted_from seats rooms [] chans).1 c
unfolding muted_telegram
muted_telegram-IsCause chans seats rooms id i = silenced-IsCause seats rooms [] chans id i
