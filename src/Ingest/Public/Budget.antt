-- ===== src/Ingest/Public/Budget.antt =====
-- The budget of a public key and an address, back/internal/ingest/public.go.
use upcontrol.Prelude.{
  ℕ, ◌+◌, ◌≤◌, ◌<◌, ◌≡◌, refl, sym, ◌∙◌, ap, subst, inl, inr, ◌⊎◌, Bool, true, false, ◌&&◌, String,
  str_eq, eq_iff, Option, none, some, List, [], ◌∷◌, arith, ltb, leb, ◌==◌, if◌then◌else◌, length,
  Dict, get, get-put, keys, In, IsDistinct, keys-put-IsDistinct, get_absent, Bool-cases,
}
use upcontrol.Ingest.Public.{RateWindow, public_rate_max, sweep_at, swept, current, stamp, allow_at}

-- The calls so far, the latest first: the key with its address, and the window.
abbrev pub Calls : Type 0
Calls = List (String × ℕ)

-- The limiter's map after the calls.
unfoldable pub after : Calls → Dict RateWindow
after [] = []
after ((k, win) ∷ calls) = (allow_at (after calls) k win).0

-- How many of the calls are of a key in a window.
unfoldable pub asked : String → ℕ → Calls → ℕ
asked k win [] = 0
asked k win ((j, w) ∷ calls) = (if str_eq j k && w == win then 1 else 0) + asked k win calls

-- No window is later than that of the calls after it.
abbrev pub Ordered : ℕ → Calls → Type 0
Ordered now [] = Unit
Ordered now ((k, win) ∷ calls) = (win ≤ now) × Ordered win calls

-- The count that the map holds for a window.
abbrev held : ℕ → Option RateWindow → ℕ
held win none = 0
held win (some h) = if h.window == win then h.count else 0

current-count : (win : ℕ) (o : Option RateWindow) → (current win o).count ≡ held win o
unfolding current
current-count win none = refl
current-count win (some h) = ground arith

current-window : (win : ℕ) (o : Option RateWindow) → (current win o).window ≡ win
unfolding current
current-window win none = refl
current-window win (some h) = ground arith

In-keys-swept :
    (win : ℕ) (k : String) (hits : Dict RateWindow)
    → In k (keys (swept win hits))
    → In k (keys hits)
unfolding swept
In-keys-swept win k [] i = i
In-keys-swept win k ((j, h) ∷ hits) i = elim (Bool-cases (h.window == win)) [
  | inl e ↦
      let i' : In k (j ∷ keys (swept win hits)) =
        subst (λ (b : Bool). In k (keys (if b then (j, h) ∷ swept win hits else swept win hits))) e
          i in
      elim i' [ inl q ↦ inl q | inr q ↦ inr (In-keys-swept win k hits q) ]
  | inr e ↦ inr (
      In-keys-swept win k hits (
        subst (λ (b : Bool). In k (keys (if b then (j, h) ∷ swept win hits else swept win hits))) e
          i))
]

keys-swept-IsDistinct :
    (win : ℕ) (hits : Dict RateWindow) → IsDistinct (keys hits) → IsDistinct (keys (swept win hits))
unfolding swept
keys-swept-IsDistinct win [] d = d
keys-swept-IsDistinct win ((j, h) ∷ hits) d = elim (Bool-cases (h.window == win)) [
  | inl e ↦ rw e (λ i. d.0 (In-keys-swept win j hits i), keys-swept-IsDistinct win hits d.1)
  | inr e ↦ rw e (keys-swept-IsDistinct win hits d.1)
]

-- The sweep keeps an entry or forgets one of another window.
get-swept :
    (win : ℕ) (k : String) (hits : Dict RateWindow)
    → IsDistinct (keys hits)
    → (get (swept win hits) k ≡ get hits k)
      ⊎ ((get (swept win hits) k ≡ none) × (held win (get hits k) ≡ 0))
unfolding swept get
get-swept win k [] d = inl refl
get-swept win k ((j, h) ∷ hits) d = elim (Bool-cases (h.window == win)) [
  | inl e ↦ rw e (elim (Bool-cases (str_eq j k)) [
    | inl q ↦ rw q (inl refl)
    | inr q ↦ rw q (get-swept win k hits d.1)
  ])
  | inr e ↦ rw e (elim (Bool-cases (str_eq j k)) [
    | inl q ↦ rw q (
        inr (
          get_absent (swept win hits) k (λ i. d.0 (
              In-keys-swept win j hits
                (subst (λ (x : String). In x (keys (swept win hits))) (sym ((eq_iff j k).0 q)) i))),
          (rw e refl),
        ))
    | inr q ↦ rw q (get-swept win k hits d.1)
  ])
]

get-kept :
    (b : Bool) (win : ℕ) (k : String) (hits : Dict RateWindow)
    → IsDistinct (keys hits)
    → (get (if b then swept win hits else hits) k ≡ get hits k)
      ⊎ ((get (if b then swept win hits else hits) k ≡ none) × (held win (get hits k) ≡ 0))
get-kept true win k hits d = get-swept win k hits d
get-kept false win k hits d = inl refl

keys-kept-IsDistinct :
    (b : Bool) (win : ℕ) (hits : Dict RateWindow)
    → IsDistinct (keys hits)
    → IsDistinct (keys (if b then swept win hits else hits))
keys-kept-IsDistinct true win hits d = keys-swept-IsDistinct win hits d
keys-kept-IsDistinct false win hits d = d

keys-stamp-IsDistinct :
    (hits : Dict RateWindow) (k : String) (h : RateWindow)
    → IsDistinct (keys hits)
    → IsDistinct (keys (stamp hits k h).0)
unfolding stamp
keys-stamp-IsDistinct hits k h d = elim (Bool-cases (leb public_rate_max h.count)) [
  | inl e ↦ rw e (keys-put-IsDistinct hits k _ d)
  | inr e ↦ rw e (keys-put-IsDistinct hits k _ d)
]

after-IsDistinct : (calls : Calls) → IsDistinct (keys (after calls))
unfolding after allow_at
after-IsDistinct [] = tt
after-IsDistinct ((k, win) ∷ calls) = keys-stamp-IsDistinct _ k _ (
    keys-kept-IsDistinct (leb sweep_at (length (after calls))) win (after calls)
      (after-IsDistinct calls))

asked-later :
    (calls : Calls) (now : ℕ)
    → Ordered now calls
    → (k : String) (w : ℕ) → now < w
    → asked k w calls ≡ 0
unfolding asked
asked-later [] now o k w l = refl
asked-later ((j, win) ∷ calls) now (m, o) k w l =
    let ih = asked-later calls win o k w (omega arith) in ground arith

-- The count that one more call leaves.
abbrev bump : ℕ → ℕ
bump n = if leb public_rate_max n then n else n + 1

held-stamp :
    (w : ℕ) (hits : Dict RateWindow) (j : String) (h : RateWindow) (k : String)
    → held w (get (stamp hits j h).0 k)
      ≡ (if str_eq j k then (if h.window == w then bump h.count else 0) else held w (get hits k))
unfolding stamp
held-stamp w hits j h k = elim (Bool-cases (leb public_rate_max h.count)) [
  | inl e ↦
      rw (e, get-put) (elim (Bool-cases (str_eq j k)) [ inl q ↦ rw q refl | inr q ↦ rw q refl ])
  | inr e ↦
      rw (e, get-put) (elim (Bool-cases (str_eq j k)) [ inl q ↦ rw q refl | inr q ↦ rw q refl ])
]

abbrev cap : ℕ → ℕ
cap n = if leb public_rate_max n then public_rate_max else n

-- The sweep forgets no count of its window or of a later one.
held-kept :
    (b : Bool) (calls : Calls) (win : ℕ) (hits : Dict RateWindow)
    → IsDistinct (keys hits)
    → Ordered win calls
    → (k : String) (w : ℕ) → win ≤ w
    → held w (get hits k) ≡ cap (asked k w calls)
    → held w (get (if b then swept win hits else hits) k) ≡ cap (asked k w calls)
held-kept b calls win hits d o k w l ih = elim (get-kept b win k hits d) [
  | inl e ↦ ap (held w) e ∙ ih
  | inr (e, z) ↦ ap (held w) e ∙ elim (Bool-cases (win == w)) [
    | inl q ↦
        let p : win ≡ w = ground arith in sym (subst (λ (v : ℕ). held v (get hits k) ≡ 0) p z) ∙ ih
    | inr q ↦ rw (asked-later calls win o k w (ground arith)) refl
  ]
]

zero_plus : (n : ℕ) → 0 + n ≡ n
zero_plus n = omega arith

bump-cap : (n m : ℕ) → m ≡ cap n → bump m ≡ cap (1 + n)
bump-cap n m e = ground arith

-- What the stamped entry holds for its window or a later one.
count-step :
    (calls : Calls) (j : String) (win w : ℕ) (h : RateWindow)
    → h.window ≡ win
    → h.count ≡ cap (asked j win calls)
    → win ≤ w
    → (win < w → asked j w calls ≡ 0)
    → (if h.window == w then bump h.count else 0)
      ≡ cap ((if win == w then 1 else 0) + asked j w calls)
count-step calls j win w h p c l z = elim (Bool-cases (win == w)) [
  | inl q ↦
      let q' : win ≡ w = ground arith in
      rw (p, q)
        (subst (λ (v : ℕ). bump h.count ≡ cap (1 + asked j v calls)) q'
          (bump-cap (asked j win calls) h.count c))
  | inr q ↦ rw (p, q) (rw (z (ground arith)) refl)
]

stamp-result :
    (hits : Dict RateWindow) (k : String) (h : RateWindow) (n : ℕ)
    → h.count ≡ cap n
    → (stamp hits k h).1 ≡ ltb n public_rate_max
unfolding stamp
stamp-result hits k h n e = elim (Bool-cases (leb public_rate_max h.count)) [
  | inl q ↦ rw q (ground arith)
  | inr q ↦ rw q (ground arith)
]

-- Until the next window the map holds the calls of each key, up to the limit.
held-after :
    (calls : Calls) (now : ℕ)
    → Ordered now calls
    → (k : String) (w : ℕ) → now ≤ w
    → held w (get (after calls) k) ≡ cap (asked k w calls)
unfolding after allow_at asked
held-after [] now o k w l = ap (held w) (get_absent [] k (λ i. i))
held-after ((j, win) ∷ calls) now (m, o) k w l =
    let hits = after calls in
    let b = leb sweep_at (length hits) in
    let kept = if b then swept win hits else hits in
    let keep : (i : String) (v : ℕ) → win ≤ v → held v (get kept i) ≡ cap (asked i v calls) =
      λ i v u.
        held-kept b calls win hits (after-IsDistinct calls) o i v u
          (held-after calls win o i v u) in
    let h = current win (get kept j) in
    held-stamp w kept j h k ∙ elim (Bool-cases (str_eq j k)) [
      | inl e ↦
          let p = (eq_iff j k).0 e in
          let c = current-count win (get kept j) ∙ keep j win (omega arith) in
          let l' : win ≤ w = omega arith in
          rw e (
            subst
              (λ (i : String).
                (if h.window == w then bump h.count else 0)
                ≡ cap ((if win == w then 1 else 0) + asked i w calls))
              p
              (count-step calls j win w h (current-window win (get kept j)) c l'
                (asked-later calls win o j w)))
      | inr e ↦ rw e (keep k w (omega arith) ∙ ap cap (sym (zero_plus (asked k w calls))))
    ]

-- A call gets through when fewer than 120 calls of its key came before it in its window.
pub allow_at_lem :
    (calls : Calls) (k : String) (win : ℕ)
    → Ordered win calls
    → (allow_at (after calls) k win).1 ≡ ltb (asked k win calls) public_rate_max
unfolding allow_at
allow_at_lem calls k win o =
    let hits = after calls in
    let b = leb sweep_at (length hits) in
    let kept = if b then swept win hits else hits in
    let keep : held win (get kept k) ≡ cap (asked k win calls) =
      held-kept b calls win hits (after-IsDistinct calls) o k win (omega arith)
        (held-after calls win o k win (omega arith)) in
    stamp-result kept k (current win (get kept k)) (asked k win calls)
      (current-count win (get kept k) ∙ keep)
