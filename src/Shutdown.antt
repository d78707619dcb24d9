-- ===== src/Shutdown.antt =====
-- The teardown of a process, back/internal/platform/shutdown/shutdown.go. The tasks run at once; what
-- counts is which of them have reported when the results are drained, all of them done or the
-- deadline past.
pub mod Unfinished
use upcontrol.Prelude.{
  String, str_eq, Bool, true, false, ◌||◌, List, [], ◌∷◌, ◌++◌, Option, none, some, is_empty,
  if◌then◌else◌,
}

-- A Task by its name.
pub record Coordinator : Type 0 where
  pub tasks : List String

abbrev pub new : Coordinator
new = record { tasks = [] }

abbrev pub register : Coordinator → String → Coordinator
register c name = record c { tasks = c.tasks ++ name ∷ [] }

-- Each task of the snapshot, and whether its result is there to be drained; the tasks' own errors
-- are logged only.
abbrev pub Reports : Type 0
Reports = List (String × Bool)

unfoldable pub drain : Reports → List String
drain [] = []
drain ((name, true) ∷ rs) = name ∷ drain rs
drain ((name, false) ∷ rs) = drain rs

-- `finishedNames[name]`
unfoldable pub finished : List String → String → Bool
finished [] name = false
finished (k ∷ ks) name = str_eq k name || finished ks name

unfoldable pub unfinished : List String → Reports → List String
unfolding finished
unfinished names [] = []
unfinished names ((name, reported) ∷ rs) =
    let rest = unfinished names rs in if finished names name then rest else name ∷ rest

-- The error: the names of the tasks that did not finish.
unfoldable pub shut_down : Reports → Option (List String)
unfolding drain unfinished
shut_down rs = let left = unfinished (drain rs) rs in if is_empty left then none else some left
