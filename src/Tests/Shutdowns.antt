-- ===== src/Tests/Shutdowns.antt =====
-- A teardown at a concrete input.
use upcontrol.Prelude.{eq_iff, inl, inr, true, false, [], ◌∷◌, arith, IsDistinct}
use upcontrol.Shutdown.{Reports}
use upcontrol.Shutdown.Unfinished.{names_of}

abbrev reports : Reports
reports = ("http", true) ∷ ("worker", false) ∷ []

distinct : IsDistinct (names_of reports)
distinct = (
  (λ h. elim h [ inl e ↦ ground (arith, (eq_iff "http" "worker").1 e) | inr f ↦ f ]),
  ((λ f. f), tt),
)
