-- ===== src/Reconnect/Laws.antt =====
-- How a reconnection ends, and what a round of the supervisor changes.
use mcp_multiplexer.Base.{
  ℕ, zero, suc, Text, text_eq, text_beq_iff, ◌≡◌, refl, sym, subst, ap, ◌∙◌, ◌⊎◌, inl, inr, ◌==◌,
  true, false, Option, none, some, List, [], ◌∷◌, ◌++◌, lookup, insert, contains, contains-snoc,
  ==_refl, lookup-insert, arith, Bool-cases,
}
use mcp_multiplexer.Errors.{Failure}
use mcp_multiplexer.Host.{Host, Answer, ok, err}
use mcp_multiplexer.Options.{Options}
use mcp_multiplexer.Mux.{Mux, ServerEntry, down}
use mcp_multiplexer.New.Connect.{Dialer}
use mcp_multiplexer.New.Connect.Opened.{IsConnected, Opened, connect-Opened}
use mcp_multiplexer.Reconnect.{
  swap_in, attempted, reconnect_loop, reconnect_server, Claims, claim, check_server,
  supervise_round,
}

-- What a reconnection leaves of the entry `before`.
abbrev pub Settled : ServerEntry → ServerEntry → Type 0
Settled before e =
    (e.reconnecting ≡ false)
    × (e.config ≡ before.config)
    × (e.refresh_ch ≡ before.refresh_ch)
    × (IsConnected e ⊎ ((e.state ≡ down) × (e.session ≡ before.session) × (e.tools ≡ before.tools)))

module _ {W E : Type 0} (host : Host W E) (dialer : Dialer W E) (opts : Options W E) where
  attempted-Settled :
      (name : Text) (entry : ServerEntry) (rest : W → ServerEntry × W)
      (r : Answer (Failure E) ServerEntry × W)
      → Opened host dialer opts entry.config r
      → ((w : W) → Settled entry (rest w).0)
      → Settled entry (attempted host dialer opts name entry rest r).0
  unfolding attempted swap_in
  attempted-Settled name entry rest (ok new, w) o h = (refl, refl, refl, inl (refl, refl, o.0.2))
  attempted-Settled name entry rest (err e, w) o h = h _

  reconnect_loop-Settled :
      (name : Text) (rounds : ℕ) (entry : ServerEntry)
      → entry.state ≡ down
      → (w : W) → Settled entry (reconnect_loop host dialer opts name rounds entry w).0
  unfolding reconnect_loop
  reconnect_loop-Settled name zero entry d w = (refl, refl, refl, inr (d, refl, refl))
  reconnect_loop-Settled name (suc rounds) entry d w =
      attempted-Settled name entry (reconnect_loop host dialer opts name rounds entry) _
        (connect-Opened host dialer opts _ _ _) (reconnect_loop-Settled name rounds entry d)

  -- However often the timer fires before the context is cancelled, and whatever the attempts come
  -- to, reconnectServer ends with `reconnecting` clear and the configuration and the channel as they
  -- were; the server is connected, with a session, or it is down with what it had.
  pub reconnect_server-Settled :
      (name : Text) (rounds : ℕ) (entry : ServerEntry) (w : W)
      → Settled entry (reconnect_server host dialer opts name rounds entry w).0
  unfolding reconnect_server
  reconnect_server-Settled name rounds entry w =
      reconnect_loop-Settled name rounds (record entry { state = down }) refl _

-- The server was claimed: it was not being reconnected, and now is, with a goroutine started for
-- it. Or its entry is what it was, and none was started.
abbrev pub ClaimedOnce : List (Text × ServerEntry) → Text → Claims → Type 0
ClaimedOnce before j (servers, started) =
    ((contains j started ≡ true)
      × ((e : ServerEntry) × (lookup j before ≡ some e)
          × (e.reconnecting ≡ false)
          × (lookup j servers ≡ some (record e { reconnecting = true }))))
    ⊎ ((contains j started ≡ false) × (lookup j servers ≡ lookup j before))

claim_self :
    (before servers : List (Text × ServerEntry)) (started : List Text) (j : Text)
    (entry : ServerEntry)
    → lookup j servers ≡ some entry
    → entry.reconnecting ≡ false
    → ClaimedOnce before j (servers, started)
    → ClaimedOnce before j
        (insert j (record entry { reconnecting = true }) servers, started ++ j ∷ [])
claim_self before servers started j entry found idle (inl (c, (e, b, r, l))) = absurd (ground arith)
claim_self before servers started j entry found idle (inr (c, l)) = inl (
  ground (arith, contains-snoc j j started, ==_refl j),
  (
    entry,
    sym l ∙ found,
    idle,
    ground (arith, lookup-insert j j (record entry { reconnecting = true }) servers, ==_refl j),
  ),
)

claim_other :
    (before servers : List (Text × ServerEntry)) (started : List Text) (j name : Text)
    (entry : ServerEntry)
    → (name == j) ≡ false
    → ClaimedOnce before j (servers, started)
    → ClaimedOnce before j (insert name entry servers, started ++ name ∷ [])
claim_other before servers started j name entry n (inl (c, (e, b, r, l))) = inl (
  ground (arith, n, contains-snoc j name started),
  (e, b, r, ground (arith, n, l, lookup-insert name j entry servers)),
)
claim_other before servers started j name entry n (inr (c, l)) = inr (
  ground (arith, n, c, contains-snoc j name started),
  ground (arith, n, l, lookup-insert name j entry servers),
)

module _ {W E : Type 0} (host : Host W E) (before : List (Text × ServerEntry)) (j : Text) where
  claim-ClaimedOnce :
      (name : Text) (entry : ServerEntry) (servers : List (Text × ServerEntry))
      (started : List Text) (probed : Option (Failure E) × W)
      → lookup name servers ≡ some entry
      → entry.reconnecting ≡ false
      → ClaimedOnce before j (servers, started)
      → ClaimedOnce before j (claim host name entry (servers, started) probed).0
  unfolding claim
  claim-ClaimedOnce name entry servers started (none, w) found idle h = h
  claim-ClaimedOnce name entry servers started (some e, w) found idle h =
      elim (Bool-cases (name == j)) [
        | inl q ↦
            subst
              (λ n.
                ClaimedOnce before j
                  (insert n (record entry { reconnecting = true }) servers, started ++ n ∷ []))
              (sym ((text_beq_iff name j).0 q))
              (claim_self before servers started j entry
                (ap (λ n. lookup n servers) (sym ((text_beq_iff name j).0 q)) ∙ found) idle h)
        | inr q ↦ claim_other before servers started j name _ q h
      ]

  check_server-ClaimedOnce :
      (mx : Mux W E) (name : Text) (o : Option ServerEntry) (servers : List (Text × ServerEntry))
      (started : List Text) (w : W)
      → lookup name servers ≡ o
      → ClaimedOnce before j (servers, started)
      → ClaimedOnce before j (check_server host mx name o (servers, started) w).0
  unfolding check_server
  check_server-ClaimedOnce mx name none servers started w found h = h
  check_server-ClaimedOnce mx name (some entry) servers started w found h =
      elim (Bool-cases entry.reconnecting) [
        | inl q ↦ simp q h
        | inr q ↦ simp q (claim-ClaimedOnce name entry servers started _ found q h)
      ]

  round-ClaimedOnce :
      (mx : Mux W E) (names : List Text) (servers : List (Text × ServerEntry)) (started : List Text)
      (w : W)
      → ClaimedOnce before j (servers, started)
      → ClaimedOnce before j (supervise_round host mx names (servers, started) w).0
  unfolding supervise_round
  round-ClaimedOnce mx [] servers started w h = h
  round-ClaimedOnce mx (name ∷ names) servers started w h =
      round-ClaimedOnce mx names _ _ _
        (check_server-ClaimedOnce mx name (lookup name servers) servers started w refl h)

-- Whatever the probes come to, after a round of the supervisor, over the names in any order: each
-- server either was not being reconnected, has its flag set with nothing else changed, and has had a
-- reconnection started; or is as it was, with none started.
pub supervise_round-ClaimedOnce :
    {W E : Type 0} (host : Host W E) (mx : Mux W E) (names : List Text) (j : Text) (w : W)
    → ClaimedOnce mx.servers j (supervise_round host mx names (mx.servers, []) w).0
supervise_round-ClaimedOnce host mx names j w =
    round-ClaimedOnce host mx.servers j mx names mx.servers [] w (inr (refl, refl))
