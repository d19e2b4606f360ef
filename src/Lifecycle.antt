-- ===== src/Lifecycle.antt =====
-- One server over time: the goroutines of healthcheck.go, toolrefresh.go and Close that share its
-- entry, interleaved in any order, one access of the shared state at a time.
pub mod Invariant
pub mod Promises
pub mod Progress
pub mod Shutdown
pub mod Races
use mcp_multiplexer.Base.{
  ℕ, suc, ◌≡◌, Bool, true, false, Option, none, some, List, [], ◌∷◌, ◌++◌, if◌then◌else◌, ◌==◌,
  nat_eq, contains,
}
use mcp_multiplexer.Mux.{ServerState, connected, down}

-- A tool list: the session that listed it, and the version of the server's list that it shows.
pub record Listing : Type 0 where
  pub session : ℕ
  pub version : ℕ

-- The entry, `ctx.Done()`, and the surroundings: the sessions that are open, the identity of the next
-- one, and the version of the list that the server has. A full `refreshCh` is `pending`.
pub record Shared : Type 0 where
  pub state : ServerState
  pub session : Option ℕ
  pub tools : Option Listing
  pub reconnecting : Bool
  pub pending : Bool
  pub cancelled : Bool
  pub sessions : List ℕ
  pub next : ℕ
  pub version : ℕ

abbrev pub without : ℕ → List ℕ → List ℕ
without c [] = []
without c (d ∷ ds) = if d == c then without c ds else d ∷ without c ds

-- Where a `reconnectServer` goroutine stands, with its local variables; `n` counts failed attempts.
pub data Worker : Type 0 where
  spawned : Worker
  closing : (old : Option ℕ) → Worker
  waiting : (n : ℕ) → Worker
  dialing : (n : ℕ) → Worker
  ready : (l : Listing) → Worker
  swapped : Worker

-- A step of `reconnectServer`; after `none` the goroutine makes no further access. `connect` closes a
-- session whose tools it cannot list, so a failed attempt leaves no session.
pub data Work (m : Shared) : Worker → Shared → Option Worker → Type 0 where
  mark : Work m spawned (record m { state = down }) (some (closing m.session))
  close_old :
      {c : ℕ}
      → Work m (closing (some c)) (record m { sessions = without c m.sessions }) (some (waiting 0))
  close_none : Work m (closing none) m (some (waiting 0))
  stop : {n : ℕ} → m.cancelled ≡ true → Work m (waiting n) (record m { reconnecting = false }) none
  wake : {n : ℕ} → Work m (waiting n) m (some (dialing n))
  fail : {n : ℕ} → Work m (dialing n) m (some (waiting (suc n)))
  dial :
      {n : ℕ}
      → Work m
          (dialing n)
          (record m { sessions = m.next ∷ m.sessions; next = suc m.next })
          (some (ready (record { session = m.next; version = m.version })))
  swap :
      {l : Listing}
      → Work m
          (ready l)
          (record m { state = connected; session = some l.session; tools = some l })
          (some swapped)
  clear : Work m swapped (record m { reconnecting = false }) none

-- The goroutine of `runToolRefresh`, with the local variables of `applyToolRefresh`.
pub data Refresher : Type 0 where
  idle taken checked quit : Refresher
  asking : (c : ℕ) → Refresher
  listed : (l : Listing) → Refresher

-- A session that is closed lists nothing.
pub data Refresh (m : Shared) : Refresher → Shared → Refresher → Type 0 where
  take_signal : m.pending ≡ true → Refresh m idle (record m { pending = false }) taken
  leave_it : m.reconnecting ≡ true → Refresh m taken m idle
  go_on : m.reconnecting ≡ false → Refresh m taken m checked
  no_session : m.session ≡ none → Refresh m checked m idle
  ask : {c : ℕ} → m.session ≡ some c → Refresh m checked m (asking c)
  no_answer : {c : ℕ} → Refresh m (asking c) m idle
  answer :
      {c : ℕ}
      → contains c m.sessions ≡ true
      → Refresh m (asking c) m (listed (record { session = c; version = m.version }))
  write : {l : Listing} → Refresh m (listed l) (record m { tools = some l }) idle
  exit : m.cancelled ≡ true → Refresh m idle m quit

-- What the loop of `runSupervisor` does for this server.
pub data Supervisor : Type 0 where
  idle probing failed claiming quit : Supervisor

-- A step of the supervisor; the flag says whether it starts a `reconnectServer`.
pub data Supervise (m : Shared) : Supervisor → Shared → Bool → Supervisor → Type 0 where
  skip : m.reconnecting ≡ true → Supervise m idle m false idle
  probe : m.reconnecting ≡ false → Supervise m idle m false probing
  alive : Supervise m probing m false idle
  dead : Supervise m probing m false failed
  leave : m.cancelled ≡ true → Supervise m failed m false quit
  stay : m.cancelled ≡ false → Supervise m failed m false claiming
  claim : m.reconnecting ≡ false → Supervise m claiming (record m { reconnecting = true }) true idle
  lose : m.reconnecting ≡ true → Supervise m claiming m false idle
  exit : m.cancelled ≡ true → Supervise m idle m false quit

-- A call of `Close`: it cancels, reads the session, and closes it.
pub data Closer : Type 0 where
  fresh cancelled closed : Closer
  holding : (c : ℕ) → Closer

pub data Close (m : Shared) : Closer → Shared → Closer → Type 0 where
  cancel : Close m fresh (record m { cancelled = true }) cancelled
  read : {c : ℕ} → m.session ≡ some c → Close m cancelled m (holding c)
  read_none : m.session ≡ none → Close m cancelled m closed
  close : {c : ℕ} → Close m (holding c) (record m { sessions = without c m.sessions }) closed

pub record System : Type 0 where
  pub mem : Shared
  pub workers : List Worker
  pub refresher : Refresher
  pub supervisor : Supervisor
  pub closer : Closer

abbrev pub still : Option Worker → List Worker
still none = []
still (some w) = w ∷ []

abbrev pub starting : Bool → List Worker
starting false = []
starting true = spawned ∷ []

-- A step of one goroutine, or of the server: it changes its list, or a notification arrives and
-- `ToolListChangedHandler` fills the channel.
pub data Step (s : System) : System → Type 0 where
  work :
      (before rest : List Worker) {w : Worker} {m : Shared} {w' : Option Worker}
      → s.workers ≡ before ++ w ∷ rest
      → Work s.mem w m w'
      → Step s (record s { mem = m; workers = before ++ (still w' ++ rest) })
  refresh :
      {m : Shared} {r : Refresher}
      → Refresh s.mem s.refresher m r
      → Step s (record s { mem = m; refresher = r })
  supervise :
      {m : Shared} {new : Bool} {p : Supervisor}
      → Supervise s.mem s.supervisor m new p
      → Step s (record s { mem = m; supervisor = p; workers = starting new ++ s.workers })
  shut :
      {m : Shared} {c : Closer}
      → Close s.mem s.closer m c
      → Step s (record s { mem = m; closer = c })
  change : Step s (record s { mem = record s.mem { version = suc s.mem.version } })
  notify : Step s (record s { mem = record s.mem { pending = true } })

-- What `New` leaves for a server that it could connect.
abbrev pub joined : ℕ → System
joined version = record {
  mem = record {
    state = connected;
    session = some 0;
    tools = some (record { session = 0; version = version });
    reconnecting = false;
    pending = false;
    cancelled = false;
    sessions = 0 ∷ [];
    next = 1;
    version = version;
  };
  workers = [];
  refresher = Refresher.idle;
  supervisor = Supervisor.idle;
  closer = fresh;
}

-- What `New` leaves for a server that it could not connect.
abbrev pub stub : ℕ → System
stub version = record {
  mem = record {
    state = down;
    session = none;
    tools = none;
    reconnecting = true;
    pending = false;
    cancelled = false;
    sessions = [];
    next = 0;
    version = version;
  };
  workers = spawned ∷ [];
  refresher = Refresher.idle;
  supervisor = Supervisor.idle;
  closer = fresh;
}

pub data Run (s : System) : System → Type 0 where
  here : Run s s
  more : {t u : System} → Run s t → Step t u → Run s u

pub data Reach : System → Type 0 where
  from_joined : (version : ℕ) {s : System} → Run (joined version) s → Reach s
  from_stub : (version : ℕ) {s : System} → Run (stub version) s → Reach s
