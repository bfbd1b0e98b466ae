-- ===== src/PendingOpen.antt =====
-- internal/pendingopen/queue.go: the queue of paths that the system asks to open before the window can
-- receive them. Each method holds the mutex for all of its body, so a concurrent run is a sequence of
-- whole calls.
pub mod Delivery
mod Tests
use pdfdebug.Prelude.{String, Bool, true, false, List, [], ◌∷◌, ◌++◌, str_eq, if◌then◌else◌, ◌||◌}

pub record Queue : Type 0 where
  pub ready : Bool
  pub paths : List String

-- The zero value.
abbrev pub empty : Queue
empty = record { ready = false; paths = [] }

-- The loop over the buffered paths.
unfoldable pub contains : List String → String → Bool
contains [] path = false
contains (p ∷ ps) path = str_eq p path || contains ps path

-- The new queue, and whether the caller must open the path at once.
unfoldable pub add : Queue → String → Queue × Bool
unfolding contains
add q path =
    if q.ready
    then (q, true)
    else if contains q.paths path
    then (q, false)
    else (record q { paths = q.paths ++ path ∷ [] }, false)

unfoldable pub drain : Queue → Queue × List String
drain q = (record { ready = true; paths = [] }, q.paths)
