-- ===== src/Lifecycle/Invariant.antt =====
-- The invariant of a server's entry under the steps of its goroutines: who tends the server, and
-- which sessions are open.
use mcp_multiplexer.Base.{
  ℕ, ◌<◌, ◌≡◌, refl, sym, subst, Bool, true, false, Option, none, some, List, [], ◌∷◌, ◌++◌, ◌⊎◌,
  arith, nat_eq,
}
use mathlib.Core.List.{append-nil}
use mcp_multiplexer.Mux.{ServerState, connected, down}
use mcp_multiplexer.Lifecycle.{
  Shared, cancel, read, read_none, close, work, refresh, supervise, shut, change, notify, without,
  Worker, spawned, closing, waiting, dialing, ready, swapped, Work, mark, close_old, close_none,
  stop, wake, fail, dial, swap, clear, Refresher, Refresh, take_signal, leave_it, go_on, no_session,
  ask, no_answer, answer, write, Supervisor, Supervise, skip, probe, alive, dead, leave, stay,
  claim, lose, Closer, Close, System, still, starting, Step, Run, here, more, Reach, from_joined,
  from_stub,
}

-- The part of the shared state that decides who tends the server.
pub record Core : Type 0 where
  pub state : ServerState
  pub session : Option ℕ
  pub reconnecting : Bool
  pub cancelled : Bool
  pub sessions : List ℕ
  pub next : ℕ

abbrev pub core : Shared → Core
core m = record {
  state = m.state;
  session = m.session;
  reconnecting = m.reconnecting;
  cancelled = m.cancelled;
  sessions = m.sessions;
  next = m.next;
}

-- The entry's session is open, and no other.
abbrev pub Held : Core → Type 0
Held k = (c : ℕ) × (k.session ≡ some c) × (k.sessions ≡ c ∷ [])

abbrev pub Rooted : Core → Type 0
Rooted k = (k.sessions ≡ []) ⊎ Held k

abbrev pub Settled : Core → Type 0
Settled k = (k.state ≡ connected) ⊎ (k.cancelled ≡ true)

abbrev Below : Option ℕ → ℕ → Type 0
Below none n = Unit {0}
Below (some d) n = d < n

-- The session that `Close` is about to close.
abbrev target : Closer → Option ℕ
target (Closer.holding d) = some d
target _ = none

-- What holds while the reconnect goroutine stands at a point.
abbrev pub Phase : Core → Option ℕ → Worker → Type 0
Phase k t spawned = Rooted k
Phase k t (closing o) = (k.state ≡ down) × (k.session ≡ o) × Rooted k
Phase k t (waiting n) = (k.state ≡ down) × (k.sessions ≡ [])
Phase k t (dialing n) = (k.state ≡ down) × (k.sessions ≡ [])
Phase k t (ready l) =
    (k.state ≡ down)
    × (k.sessions ≡ l.session ∷ [])
    × (l.session < k.next)
    × Below k.session l.session
    × Below t l.session
Phase k t swapped = (k.state ≡ connected) × Rooted k

-- `reconnecting` is set exactly while there is a reconnect goroutine, and there is one at most.
abbrev pub Tended : Core → Option ℕ → List Worker → Type 0
Tended k t [] = (k.reconnecting ≡ false) × Settled k × Rooted k
Tended k t (w ∷ []) = (k.reconnecting ≡ true) × Phase k t w
Tended k t (v ∷ w ∷ ws) = ⊥

-- `Close` has not read the session.
abbrev pub Unread : Closer → Type 0
Unread Closer.fresh = Unit
Unread Closer.cancelled = Unit
Unread _ = ⊥

abbrev Numbered : Core → Option ℕ → Type 0
Numbered k t = Below k.session k.next × Below t k.next

abbrev Live : Core → Closer → Type 0
Live k c = Unread c → k.state ≡ connected → Held k

pub record IsSound (k : Core) (c : Closer) (ws : List Worker) : Type 0 where
  pub tended : Tended k (target c) ws
  pub numbered : Numbered k (target c)
  pub live : Live k c

-- The one goroutine is replaced by what follows it.
replace :
    {k k' : Core} {c : Closer} {w : Worker} (next before rest : List Worker)
    → IsSound k c (before ++ w ∷ rest)
    → (IsSound k c (w ∷ []) → IsSound k' c next)
    → IsSound k' c (before ++ (next ++ rest))
replace {k' = k'} {c = c} next [] [] h f = subst (IsSound k' c) (sym (append-nil next)) (f h)
replace next [] (r ∷ rest) h f = absurd h.tended
replace next (b ∷ []) rest h f = absurd h.tended
replace next (b ∷ b' ∷ before) rest h f = absurd h.tended

Rooted-without :
    (c : ℕ) (k : Core) → Rooted k → Rooted (record k { sessions = without c k.sessions })
Rooted-without c k h = ground arith

Work-IsSound :
    {m m' : Shared} {c : Closer} {w : Worker} {w' : Option Worker}
    → Work m w m' w'
    → IsSound (core m) c (w ∷ [])
    → IsSound (core m') c (still w')
Work-IsSound mark h = record {
  tended = (h.tended.0, (refl, refl, h.tended.1));
  numbered = h.numbered;
  live = ground arith;
}
Work-IsSound close_old h = ground arith
Work-IsSound close_none h = ground arith
Work-IsSound (stop d) h = ground arith
Work-IsSound wake h = ground arith
Work-IsSound fail h = ground arith
Work-IsSound dial h = ground arith
Work-IsSound swap h = ground arith
Work-IsSound clear h = ground arith

Supervise-IsSound :
    {m m' : Shared} {c : Closer} {new : Bool} {p q : Supervisor} {ws : List Worker}
    → Supervise m p m' new q
    → IsSound (core m) c ws
    → IsSound (core m') c (starting new ++ ws)
Supervise-IsSound (skip r) h = h
Supervise-IsSound (probe r) h = h
Supervise-IsSound alive h = h
Supervise-IsSound dead h = h
Supervise-IsSound (leave d) h = h
Supervise-IsSound (stay d) h = h
Supervise-IsSound {ws = []} (claim r) h = ground arith
Supervise-IsSound {ws = w ∷ []} (claim r) h = ground arith
Supervise-IsSound {ws = v ∷ w ∷ ws} (claim r) h = absurd h.tended
Supervise-IsSound (lose r) h = h
Supervise-IsSound (Supervise.exit d) h = h

Refresh-IsSound :
    {m m' : Shared} {c : Closer} {p q : Refresher} {ws : List Worker}
    → Refresh m p m' q
    → IsSound (core m) c ws
    → IsSound (core m') c ws
Refresh-IsSound (take_signal s) h = h
Refresh-IsSound (leave_it s) h = h
Refresh-IsSound (go_on s) h = h
Refresh-IsSound (no_session s) h = h
Refresh-IsSound (ask s) h = h
Refresh-IsSound no_answer h = h
Refresh-IsSound (answer s) h = h
Refresh-IsSound write h = h
Refresh-IsSound (Refresh.exit s) h = h

Close-Phase :
    {m m' : Shared} {c d : Closer} (w : Worker)
    → Close m c m' d
    → Phase (core m) (target c) w
    → Phase (core m') (target d) w
Close-Phase {m} spawned (close {c}) p = ground (arith, Rooted-without c (core m))
Close-Phase {m} (closing o) (close {c}) p = ground (arith, Rooted-without c (core m))
Close-Phase {m} swapped (close {c}) p = ground (arith, Rooted-without c (core m))
Close-Phase (waiting n) close p = ground arith
Close-Phase (dialing n) close p = ground arith
Close-Phase (ready l) close p = ground arith
Close-Phase (ready l) (read e) p = ground arith
Close-Phase w s p = p

Close-IsSound :
    {m m' : Shared} {c d : Closer} (ws : List Worker)
    → Close m c m' d
    → IsSound (core m) c ws
    → IsSound (core m') d ws
Close-IsSound [] cancel h = ground arith
Close-IsSound [] (read e) h = ground arith
Close-IsSound [] (read_none e) h = ground arith
Close-IsSound [] close h = ground arith
Close-IsSound (w ∷ []) cancel h = ground (arith, Close-Phase w cancel h.tended.1)
Close-IsSound (w ∷ []) (read e) h = ground (arith, Close-Phase w (read e) h.tended.1)
Close-IsSound (w ∷ []) (read_none e) h = ground (arith, Close-Phase w (read_none e) h.tended.1)
Close-IsSound (w ∷ []) close h = ground (arith, Close-Phase w close h.tended.1)
Close-IsSound (v ∷ w ∷ ws) s h = absurd h.tended

abbrev pub AllSound : System → Type 0
AllSound s = IsSound (core s.mem) s.closer s.workers

Step-AllSound : {s t : System} → Step s t → AllSound s → AllSound t
Step-AllSound {s} (work before rest {w' = w'} e x) h =
    replace (still w') before rest (subst (IsSound (core s.mem) s.closer) e h) (Work-IsSound x)
Step-AllSound (refresh x) h = Refresh-IsSound x h
Step-AllSound (supervise x) h = Supervise-IsSound x h
Step-AllSound {s} (shut x) h = Close-IsSound s.workers x h
Step-AllSound change h = h
Step-AllSound notify h = h

Run-AllSound : {s t : System} → Run s t → AllSound s → AllSound t
Run-AllSound here h = h
Run-AllSound (more r x) h = Step-AllSound x (Run-AllSound r h)

pub Reach-AllSound : {s : System} → Reach s → AllSound s
Reach-AllSound (from_joined v r) = Run-AllSound r (ground arith)
Reach-AllSound (from_stub v r) = Run-AllSound r (ground arith)
