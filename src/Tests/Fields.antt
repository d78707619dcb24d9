-- ===== src/Tests/Fields.antt =====
-- The cardinality limiter at concrete inputs.
use upcontrol.Prelude.{
  ◌≤◌, ◌≡◌, ◌≢◌, refl, String, eq_iff, List, [], ◌∷◌, arith, pos, get, put, length, All, IsDistinct,
}
use upcontrol.Ingest.Cardinality.{sentinel, Limiter, contains, track, new, add}
use upcontrol.Ingest.Cardinality.Bounds.{IsValid, after, stored, seen_of, IsListed, stored_bounded}

abbrev two : Limiter
two = record { ceiling = 2; fields = [] }

abbrev calls : List (String × String)
calls =
    ("host", "a")
    ∷ ("host", "b")
    ∷ ("host", "c")
    ∷ ("service", "x")
    ∷ ("host", "a")
    ∷ ("host", "d")
    ∷ []

calls-stored : stored "host" two calls ≡ "a" ∷ "b" ∷ "__over__" ∷ "a" ∷ "__over__" ∷ []
unfolding add track contains get put
calls-stored = refl

default_ceiling_taken : (new (pos 0)).ceiling ≡ 1000
unfolding new
default_ceiling_taken = refl

two-IsValid : IsValid two
unfolding get
two-IsValid = record {
  at_field = λ f. record { within = omega arith; distinct = tt; used_up = λ h. cc };
}

stored_bounded_example :
    (length (seen_of (after two calls) "host") ≤ 2)
    × IsDistinct (seen_of (after two calls) "host")
    × All (IsListed two calls "host") (stored "host" two calls)
stored_bounded_example = stored_bounded "host" two calls two-IsValid

a_is_real : ◌≢◌ {A = String} "a" sentinel
a_is_real = ground (arith, eq_iff "a" sentinel)
