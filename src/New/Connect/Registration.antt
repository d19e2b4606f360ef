-- ===== src/New/Connect/Registration.antt =====
-- Which servers New registers, and for which it starts a reconnection.
use mcp_multiplexer.Base.{
  contains-snoc, Text, Bool-cases, subst, sym, text_eq, ◌≡◌, refl, ◌∙◌, ap, true, false, none, some,
  List, [], ◌∷◌, ◌⊎◌, inl, inr, lookup, lookup-insert, contains, All, arith, ◌==◌, ==_refl,
  text_beq_iff,
}
use mcp_multiplexer.Config.{ServerConfig, MultiplexerConfig, with_kind_defaults}
use mcp_multiplexer.Errors.{Failure}
use mcp_multiplexer.Host.{Host, Answer, ok, err}
use mcp_multiplexer.Options.{Options}
use mcp_multiplexer.Mux.{ServerEntry}
use mcp_multiplexer.New.{effective_config}
use mcp_multiplexer.New.Laws.{IsNew}
use mcp_multiplexer.New.Connect.{
  Dialer, Started, new_mux, started, connect, Joined, stub_entry, join_server, join_with,
  join_servers,
}
use mcp_multiplexer.New.Connect.Opened.{IsConnected, Opened, connect-Opened}

effective_config-name :
    (cfg : MultiplexerConfig) (sc : ServerConfig) → (effective_config cfg sc).name ≡ sc.name
unfolding effective_config with_kind_defaults
effective_config-name cfg sc = ground arith

-- The server is registered under the name, with the configuration. The entry is connected, with a
-- session, and no reconnection is started; or it is a stub that is down, and one is.
abbrev pub RegisteredAs : Text → ServerConfig → List (Text × ServerEntry) → List Text → Type 0
RegisteredAs name config servers failed =
    (e : ServerEntry) × (lookup name servers ≡ some e)
    × (e.config ≡ config)
    × ((IsConnected e × (contains name failed ≡ false))
        ⊎ ((e ≡ stub_entry config) × (contains name failed ≡ true)))

abbrev pub Registered :
    MultiplexerConfig → List (Text × ServerEntry) → List Text → ServerConfig → Type 0
Registered cfg servers failed sc = RegisteredAs sc.name (effective_config cfg sc) servers failed

abbrev pub names : List ServerConfig → List Text
names [] = []
names (sc ∷ order) = sc.name ∷ names order

module _ {W E : Type 0} (host : Host W E) (dialer : Dialer W E) (opts : Options W E) where
  join_with_self :
      (sc : ServerConfig) (r : Answer (Failure E) ServerEntry × W)
      (servers : List (Text × ServerEntry)) (failed : List Text)
      → Opened host dialer opts sc r
      → contains sc.name failed ≡ false
      → RegisteredAs sc.name sc
          (join_with host dialer opts sc r (servers, failed)).0.0
          (join_with host dialer opts sc r (servers, failed)).0.1
  unfolding join_with
  join_with_self sc (err e, w) servers failed o h = (
    stub_entry sc,
    ground (arith, lookup-insert sc.name sc.name (stub_entry sc) servers, ==_refl sc.name),
    refl,
    inr (refl, ground (arith, contains-snoc sc.name sc.name failed, ==_refl sc.name)),
  )
  join_with_self sc (ok entry, w) servers failed o h = (
    entry,
    ground (arith, lookup-insert sc.name sc.name entry servers, ==_refl sc.name),
    o.1,
    inl (o.0, h),
  )

  -- The entry and the failure of another server stay.
  join_with-other :
      (sc : ServerConfig) (j : Text) (r : Answer (Failure E) ServerEntry × W)
      (servers : List (Text × ServerEntry)) (failed : List Text)
      → (sc.name == j) ≡ false
      → (lookup j (join_with host dialer opts sc r (servers, failed)).0.0 ≡ lookup j servers)
        × (contains j (join_with host dialer opts sc r (servers, failed)).0.1 ≡ contains j failed)
  unfolding join_with
  join_with-other sc j (err e, w) servers failed n = (
    ground (arith, lookup-insert sc.name j (stub_entry sc) servers),
    ground (arith, contains-snoc j sc.name failed),
  )
  join_with-other sc j (ok entry, w) servers failed n =
      (ground (arith, lookup-insert sc.name j entry servers), refl)

  join_server-other :
      (cfg : MultiplexerConfig) (sc : ServerConfig) (j : Text) (acc : Joined) (w : W)
      → (sc.name == j) ≡ false
      → (lookup j (join_server host dialer opts (effective_config cfg sc) acc w).0.0
          ≡ lookup j acc.0)
        × (contains j (join_server host dialer opts (effective_config cfg sc) acc w).0.1
            ≡ contains j acc.1)
  unfolding join_server
  join_server-other cfg sc j (servers, failed) w n =
      join_with-other (effective_config cfg sc) j _ servers failed
        (ap (λ m. m == j) (effective_config-name cfg sc) ∙ n)

  join_servers-other :
      (cfg : MultiplexerConfig) (order : List ServerConfig) (seen : List Text) (j : Text)
      (acc : Joined) (w : W)
      → IsNew seen order
      → contains j seen ≡ true
      → (lookup j (join_servers host dialer opts cfg order acc w).0.0 ≡ lookup j acc.0)
        × (contains j (join_servers host dialer opts cfg order acc w).0.1 ≡ contains j acc.1)
  unfolding join_servers
  join_servers-other cfg [] seen j acc w n m = (refl, refl)
  join_servers-other cfg (sc ∷ order) seen j acc w n m =
      let step =
        join_server-other cfg sc j acc w (ground (arith, n.0, m, text_beq_iff sc.name j)) in
      let rest = join_servers-other cfg order (sc.name ∷ seen) j _ _ n.1 (ground (arith, m)) in
      (rest.0 ∙ step.0, rest.1 ∙ step.1)

  Registered-others :
      (cfg : MultiplexerConfig) (sc : ServerConfig) (servers servers' : List (Text × ServerEntry))
      (failed failed' : List Text)
      → (lookup sc.name servers' ≡ lookup sc.name servers)
        × (contains sc.name failed' ≡ contains sc.name failed)
      → Registered cfg servers failed sc
      → Registered cfg servers' failed' sc
  Registered-others cfg sc servers servers' failed failed' k (e, found, config, s) =
      (e, k.0 ∙ found, config, ground (arith, k.1))

  -- The failures so far are among the servers seen.
  abbrev Within : List Text → List Text → Type 0
  Within failed seen = (j : Text) → contains j seen ≡ false → contains j failed ≡ false

  join_with-as :
      (n : Text) (sc : ServerConfig) (r : Answer (Failure E) ServerEntry × W) (acc : Joined)
      → sc.name ≡ n
      → Opened host dialer opts sc r
      → contains n acc.1 ≡ false
      → RegisteredAs n sc
          (join_with host dialer opts sc r acc).0.0
          (join_with host dialer opts sc r acc).0.1
  join_with-as n sc r (servers, failed) e o h =
      subst
        (λ m.
          RegisteredAs m sc (join_with host dialer opts sc r (servers, failed)).0.0
            (join_with host dialer opts sc r (servers, failed)).0.1)
        e (join_with_self sc r servers failed o (ap (λ m. contains m failed) e ∙ h))

  join_server-Registered :
      (cfg : MultiplexerConfig) (sc : ServerConfig) (acc : Joined) (w : W)
      → contains sc.name acc.1 ≡ false
      → Registered cfg
          (join_server host dialer opts (effective_config cfg sc) acc w).0.0
          (join_server host dialer opts (effective_config cfg sc) acc w).0.1
          sc
  unfolding join_server
  join_server-Registered cfg sc acc w h =
      join_with-as sc.name (effective_config cfg sc)
        (connect host dialer opts (effective_config cfg sc) (some false) w) acc
        (effective_config-name cfg sc) (connect-Opened host dialer opts _ _ w) h

  Within-step :
      (cfg : MultiplexerConfig) (sc : ServerConfig) (acc : Joined) (w : W) (seen : List Text)
      → Within acc.1 seen
      → Within (join_server host dialer opts (effective_config cfg sc) acc w).0.1 (sc.name ∷ seen)
  Within-step cfg sc acc w seen within j n =
      (join_server-other cfg sc j acc w (ground (arith, n))).1 ∙ within j (ground (arith, n))

  join_servers-Registered :
      (cfg : MultiplexerConfig) (order : List ServerConfig) (seen : List Text) (acc : Joined)
      (w : W)
      → IsNew seen order
      → Within acc.1 seen
      → All
          (Registered cfg
            (join_servers host dialer opts cfg order acc w).0.0
            (join_servers host dialer opts cfg order acc w).0.1)
          order
  unfolding join_servers
  join_servers-Registered cfg [] seen acc w new within = tt
  join_servers-Registered cfg (sc ∷ order) seen acc w new within =
      let here = join_server-Registered cfg sc acc w (within sc.name new.0) in
      (
        Registered-others cfg sc _ _ _ _
            (join_servers-other cfg order (sc.name ∷ seen) sc.name _ _ new.1
              (ground (arith, ==_refl sc.name)))
            here,
        join_servers-Registered cfg order (sc.name ∷ seen) _ _ new.1
            (Within-step cfg sc acc w seen within),
      )

  join_servers-absent :
      (cfg : MultiplexerConfig) (order : List ServerConfig) (j : Text) (acc : Joined) (w : W)
      → contains j (names order) ≡ false
      → lookup j (join_servers host dialer opts cfg order acc w).0.0 ≡ lookup j acc.0
  unfolding join_servers
  join_servers-absent cfg [] j acc w n = refl
  join_servers-absent cfg (sc ∷ order) j acc w n =
      join_servers-absent cfg order j _ _ (ground (arith, n))
      ∙ (join_server-other cfg sc j acc w (ground (arith, n))).0

  new_mux-ok :
      (cfg : MultiplexerConfig) (order : List ServerConfig) (w : W) (t : Started W E)
      → (new_mux host dialer opts cfg order w).0 ≡ ok t
      → t ≡ started opts cfg (join_servers host dialer opts cfg order ([], []) w).0
  unfolding new_mux
  new_mux-ok cfg order w t h = ground arith

  -- The options are those that were given.
  pub new_mux-opts :
      (cfg : MultiplexerConfig) (order : List ServerConfig) (w : W) (t : Started W E)
      → (new_mux host dialer opts cfg order w).0 ≡ ok t
      → t.mux.opts ≡ opts
  unfolding started
  new_mux-opts cfg order w t h = ap (λ (t : Started W E). t.mux.opts) (new_mux-ok cfg order w t h)

  -- Where `New` succeeds, and the servers have different names in the order in which they are
  -- connected, each is registered under its name with the defaults of its kind: it is connected and
  -- has a session, or it is down, without session or tools; a reconnection is started for those that
  -- are down and for no other; and no name but theirs is registered.
  pub new_mux-Registered :
      (cfg : MultiplexerConfig) (order : List ServerConfig) (w : W) (t : Started W E) (j : Text)
      → IsNew [] order
      → (new_mux host dialer opts cfg order w).0 ≡ ok t
      → All (Registered cfg t.mux.servers t.reconnects) order
        × ((contains j (names order) ≡ true) ⊎ (lookup j t.mux.servers ≡ none))
  unfolding started lookup
  new_mux-Registered cfg order w t j new h =
      subst
        (λ (t : Started W E).
          All (Registered cfg t.mux.servers t.reconnects) order
          × ((contains j (names order) ≡ true) ⊎ (lookup j t.mux.servers ≡ none)))
        (sym (new_mux-ok cfg order w t h))
        (
          join_servers-Registered cfg order [] ([], []) w new (λ j m. refl),
          elim (Bool-cases (contains j (names order))) [
            | inl e ↦ inl e
            | inr e ↦ inr (join_servers-absent cfg order j ([], []) w e)
          ],
        )
