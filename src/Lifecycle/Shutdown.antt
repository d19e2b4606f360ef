-- ===== src/Lifecycle/Shutdown.antt =====
-- How the goroutines of a server end once the context is cancelled.
use mcp_multiplexer.Base.{
  ℕ, ◌≡◌, refl, sym, subst, Bool, true, Option, none, some, List, [], ◌∷◌, ◌++◌, inl, inr,
  Bool-cases, Option-cases,
}
use mcp_multiplexer.Lifecycle.{
  Shared, Worker, spawned, closing, waiting, dialing, ready, swapped, mark, close_old, close_none,
  stop, fail, swap, clear, Refresher, Refresh, leave_it, go_on, no_session, ask, no_answer, write,
  Supervisor, Supervise, alive, leave, claim, lose, Closer, Close, cancel, read, read_none, close,
  System, starting, Step, work, refresh, supervise, shut, Run, here, more, Reach, from_joined,
  from_stub,
}
use mcp_multiplexer.Lifecycle.Invariant.{core, Tended, Reach-AllSound}
use mcp_multiplexer.Lifecycle.Progress.{first}

pub refresh_at :
    {s : System} {m : Shared} {p q : Refresher}
    → s.refresher ≡ p
    → Refresh s.mem p m q
    → Step s (record s { mem = m; refresher = q })
refresh_at {s} {m} {p} {q} e x = refresh (subst (λ r. Refresh s.mem r m q) (sym e) x)

pub supervise_at :
    {s : System} {m : Shared} {p q : Supervisor} {new : Bool}
    → s.supervisor ≡ p
    → Supervise s.mem p m new q
    → Step s (record s { mem = m; supervisor = q; workers = starting new ++ s.workers })
supervise_at {s} {m} {p} {q} {new} e x =
    supervise (subst (λ r. Supervise s.mem r m new q) (sym e) x)

pub shut_at :
    {s : System} {m : Shared} {c d : Closer}
    → s.closer ≡ c
    → Close s.mem c m d
    → Step s (record s { mem = m; closer = d })
shut_at {s} {m} {c} {d} e x = shut (subst (λ r. Close s.mem r m d) (sym e) x)

-- The context is cancelled; the sessions that were ever opened are those before `n`.
abbrev Halted : ℕ → System → Type 0
Halted n s = (s.mem.cancelled ≡ true) × (s.mem.next ≡ n)

-- The goroutines have ended, one after the other.
abbrev Refreshed : ℕ → System → Type 0
Refreshed n s = Halted n s × (s.refresher ≡ Refresher.quit)

abbrev Unsupervised : ℕ → System → Type 0
Unsupervised n s = Refreshed n s × (s.supervisor ≡ Supervisor.quit)

abbrev Shut : ℕ → System → Type 0
Shut n s = Unsupervised n s × (s.closer ≡ Closer.closed)

-- All have ended, and no session was opened since there were `n`.
abbrev pub Ended : ℕ → System → Type 0
Ended n s =
    (s.workers ≡ [])
    × (s.supervisor ≡ Supervisor.quit)
    × (s.refresher ≡ Refresher.quit)
    × (s.closer ≡ Closer.closed)
    × (s.mem.next ≡ n)

abbrev pub Leads : (System → Type 0) → System → Type 0
Leads Holds s = (t : System) × Run s t × Holds t

after : (Holds : System → Type 0) {s t : System} → Step s t → Leads Holds t → Leads Holds s
after Holds x (u, r, h) = (u, first x r, h)

refresher_idle :
    {k : ℕ} (s : System) → s.refresher ≡ Refresher.idle → Halted k s → Leads (Refreshed k) s
refresher_idle {k} s e c = (_, more here (refresh_at e (Refresh.exit c.0)), (c, refl))

refresher_checked :
    {k : ℕ} (s : System) → s.refresher ≡ Refresher.checked → Halted k s → Leads (Refreshed k) s
refresher_checked {k} s e c = elim (Option-cases s.mem.session) [
  | inl n ↦ after (Refreshed k) (refresh_at e (no_session n)) (refresher_idle _ refl c)
  | inr (d, n) ↦
      after (Refreshed k) (refresh_at e (ask n))
        (after (Refreshed k) (refresh_at refl no_answer) (refresher_idle _ refl c))
]

refresher_ends :
    {k : ℕ} (s : System) (p : Refresher) → s.refresher ≡ p → Halted k s → Leads (Refreshed k) s
refresher_ends {k} s Refresher.idle e c = refresher_idle s e c
refresher_ends {k} s Refresher.quit e c = (s, here, (c, e))
refresher_ends {k} s Refresher.taken e c = elim (Bool-cases s.mem.reconnecting) [
  | inl r ↦ after (Refreshed k) (refresh_at e (leave_it r)) (refresher_idle _ refl c)
  | inr r ↦ after (Refreshed k) (refresh_at e (go_on r)) (refresher_checked _ refl c)
]
refresher_ends {k} s Refresher.checked e c = refresher_checked s e c
refresher_ends {k} s (Refresher.asking d) e c =
    after (Refreshed k) (refresh_at e no_answer) (refresher_idle _ refl c)
refresher_ends {k} s (Refresher.listed l) e c =
    after (Refreshed k) (refresh_at e write) (refresher_idle _ refl c)

supervisor_idle :
    {k : ℕ} (s : System) → s.supervisor ≡ Supervisor.idle → Refreshed k s → Leads (Unsupervised k) s
supervisor_idle {k} s e r = (_, more here (supervise_at e (Supervise.exit r.0.0)), (r, refl))

supervisor_ends :
    {k : ℕ} (s : System) (p : Supervisor)
    → s.supervisor ≡ p
    → Refreshed k s
    → Leads (Unsupervised k) s
supervisor_ends {k} s Supervisor.idle e r = supervisor_idle s e r
supervisor_ends {k} s Supervisor.quit e r = (s, here, (r, e))
supervisor_ends {k} s Supervisor.failed e r =
    (_, more here (supervise_at e (leave r.0.0)), (r, refl))
supervisor_ends {k} s Supervisor.probing e r =
    after (Unsupervised k) (supervise_at e alive) (supervisor_idle _ refl r)
supervisor_ends {k} s Supervisor.claiming e r = elim (Bool-cases s.mem.reconnecting) [
  | inl b ↦ after (Unsupervised k) (supervise_at e (lose b)) (supervisor_idle _ refl r)
  | inr b ↦ after (Unsupervised k) (supervise_at e (claim b)) (supervisor_idle _ refl r)
]

closer_cancelled :
    {k : ℕ} (s : System) → s.closer ≡ Closer.cancelled → Unsupervised k s → Leads (Shut k) s
closer_cancelled {k} s e u = elim (Option-cases s.mem.session) [
  | inl n ↦ (_, more here (shut_at e (read_none n)), (u, refl))
  | inr (d, n) ↦ (_, more (more here (shut_at e (read n))) (shut_at refl close), (u, refl))
]

closer_ends : {k : ℕ} (s : System) (c : Closer) → s.closer ≡ c → Unsupervised k s → Leads (Shut k) s
closer_ends {k} s Closer.fresh e ((c, r), p) =
    after (Shut k) (shut_at e cancel) (closer_cancelled _ refl (((refl, c.1), r), p))
closer_ends {k} s Closer.cancelled e u = closer_cancelled s e u
closer_ends {k} s (Closer.holding d) e u = (_, more here (shut_at e close), (u, refl))
closer_ends {k} s Closer.closed e u = (s, here, (u, e))

-- The reconnect goroutine, with nothing else left.
worker_waiting :
    {k : ℕ} (s : System) (n : ℕ) → s.workers ≡ waiting n ∷ [] → Shut k s → Leads (Ended k) s
worker_waiting {k} s n e (((c, r), p), q) =
    (_, more here (work [] [] e (stop c.0)), (refl, p, r, q, c.1))

worker_swapped : {k : ℕ} (s : System) → s.workers ≡ swapped ∷ [] → Shut k s → Leads (Ended k) s
worker_swapped {k} s e (((c, r), p), q) = (_, more here (work [] [] e clear), (refl, p, r, q, c.1))

worker_closing :
    {k : ℕ} (s : System) (o : Option ℕ) → s.workers ≡ closing o ∷ [] → Shut k s → Leads (Ended k) s
worker_closing {k} s none e h =
    after (Ended k) (work [] [] e close_none) (worker_waiting _ 0 refl h)
worker_closing {k} s (some d) e h =
    after (Ended k) (work [] [] e close_old) (worker_waiting _ 0 refl h)

worker_ends : {k : ℕ} (s : System) (w : Worker) → s.workers ≡ w ∷ [] → Shut k s → Leads (Ended k) s
worker_ends {k} s spawned e h = after (Ended k) (work [] [] e mark) (worker_closing _ _ refl h)
worker_ends {k} s (closing o) e h = worker_closing s o e h
worker_ends {k} s (waiting n) e h = worker_waiting s n e h
worker_ends {k} s (dialing n) e h = after (Ended k) (work [] [] e fail) (worker_waiting _ _ refl h)
worker_ends {k} s (ready l) e h = after (Ended k) (work [] [] e swap) (worker_swapped _ refl h)
worker_ends {k} s swapped e h = worker_swapped s e h

workers_end :
    {k : ℕ} (t : Option ℕ) (s : System) (ws : List Worker)
    → s.workers ≡ ws
    → Tended (core s.mem) t ws
    → Shut k s
    → Leads (Ended k) s
workers_end {k} t s [] e h (((c, r), p), q) = (s, here, (e, p, r, q, c.1))
workers_end {k} t s (w ∷ []) e h d = worker_ends s w e d
workers_end {k} t s (v ∷ w ∷ ws) e h d = absurd h

join_runs : {s t u : System} → Run s t → Run t u → Run s u
join_runs r here = r
join_runs r (more q x) = more (join_runs r q) x

Reach-Run : {s t : System} → Reach s → Run s t → Reach t
Reach-Run (from_joined v r) q = from_joined v (join_runs r q)
Reach-Run (from_stub v r) q = from_stub v (join_runs r q)

-- No goroutine can be stuck, and none needs a new connection to end: from every state that can be
-- reached in which the context is cancelled, wherever the goroutines stand, there is a run in which
-- no session is opened, and after which the reconnection, the supervisor, the refresh and `Close`
-- have all ended.
pub cancelled-Ended : {s : System} → Reach s → s.mem.cancelled ≡ true → Leads (Ended s.mem.next) s
cancelled-Ended {s} reach c =
    let (t, q, h) = refresher_ends {k = s.mem.next} s s.refresher refl (c, refl) in
    let (u, r, k) = supervisor_ends t t.supervisor refl h in
    let (v, x, l) = closer_ends u u.closer refl k in
    let run = join_runs q (join_runs r x) in
    let (w, y, m) =
      workers_end _ v v.workers refl (Reach-AllSound (Reach-Run reach run)).tended l in
    (w, join_runs run y, m)
