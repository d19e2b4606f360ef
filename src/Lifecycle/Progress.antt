-- ===== src/Lifecycle/Progress.antt =====
-- The way back of a server that is down.
use mcp_multiplexer.Base.{ℕ, ◌≡◌, refl, sym, subst, List, false, Option, none, some, [], ◌∷◌, arith}
use mcp_multiplexer.Mux.{connected, down}
use mcp_multiplexer.Lifecycle.{
  Listing, Worker, spawned, closing, waiting, dialing, ready, swapped, mark, close_old, close_none,
  wake, dial, swap, System, Step, Shared, Work, work, Run, here, more, Reach,
}
use mcp_multiplexer.Lifecycle.Invariant.{Core, core, Phase, Tended, Reach-AllSound}

pub first : {s t u : System} → Step s t → Run t u → Run s u
first x here = more here x
first x (more r y) = more (first x r) y

-- Steps of the one reconnect goroutine that there is: nothing else of the system moves.
pub data Works : System → System → Type 0 where
  done : {s : System} → Works s s
  next :
      {s t u : System} {w w' : Worker} {m : Shared}
      → s.workers ≡ w ∷ []
      → Work s.mem w m (some w')
      → t ≡ record s { mem = m; workers = w' ∷ [] }
      → Works t u
      → Works s u

-- They are steps of the system.
Works-Run : {s t : System} → Works s t → Run s t
Works-Run done = here
Works-Run (next {s} {t} e x same r) =
    first (subst (λ t. Step s t) (sym same) (work [] [] e x)) (Works-Run r)

-- Steps of the reconnect goroutine alone lead to a connected server.
abbrev pub Recovers : System → Type 0
Recovers s = (t : System) × Works s t × Run s t × (t.mem.state ≡ connected)

-- Without the run that the steps are.
abbrev Comes : System → Type 0
Comes s = (t : System) × Works s t × (t.mem.state ≡ connected)

after :
    {s : System} {w w' : Worker} {m : Shared}
    → s.workers ≡ w ∷ []
    → Work s.mem w m (some w')
    → Comes (record s { mem = m; workers = w' ∷ [] })
    → Comes s
after e x (t, r, h) = (t, next e x refl r, h)

from_ready : (s : System) (l : Listing) → s.workers ≡ ready l ∷ [] → Comes s
from_ready s l e = after e swap (_, done, refl)

from_waiting : (s : System) (n : ℕ) → s.workers ≡ waiting n ∷ [] → Comes s
from_waiting s n e = after e wake (after refl dial (from_ready _ _ refl))

from_closing : (s : System) (o : Option ℕ) → s.workers ≡ closing o ∷ [] → Comes s
from_closing s none e = after e close_none (from_waiting _ 0 refl)
from_closing s (some c) e = after e close_old (from_waiting _ 0 refl)

from_worker :
    (k : Core) (t : Option ℕ) (s : System) (w : Worker)
    → s.workers ≡ w ∷ []
    → k.state ≡ down
    → Phase k t w
    → Comes s
from_worker k t s spawned e d p = after e mark (from_closing _ _ refl)
from_worker k t s (closing o) e d p = from_closing s o e
from_worker k t s (waiting n) e d p = from_waiting s n e
from_worker k t s (dialing n) e d p = after e dial (from_ready _ _ refl)
from_worker k t s (ready l) e d p = from_ready s l e
from_worker k t s swapped e d p = cc

from_workers :
    (t : Option ℕ) (s : System) (ws : List Worker)
    → s.workers ≡ ws
    → s.mem.state ≡ down
    → s.mem.cancelled ≡ false
    → Tended (core s.mem) t ws
    → Comes s
from_workers t s [] e d n h = absurd (ground arith)
from_workers t s (w ∷ []) e d n h = from_worker (core s.mem) t s w e d h.1
from_workers t s (v ∷ w ∷ ws) e d n h = absurd h

-- From every state that can be reached in which the server is down and `Close` has not been called,
-- steps of the reconnect goroutine alone lead to a state in which it is connected.
pub down-Recovers :
    {s : System} → Reach s → s.mem.state ≡ down → s.mem.cancelled ≡ false → Recovers s
down-Recovers {s} r d n =
    let (t, works, h) = from_workers _ s s.workers refl d n (Reach-AllSound r).tended in
    (t, works, Works-Run works, h)
