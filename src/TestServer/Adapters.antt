-- ===== src/TestServer/Adapters.antt =====
-- internal/testutil/mcptest/server_inmem.go and server_http.go: the transports of the test server; and
-- internal/testutil/dockertarget/main.go: the tool of the server that runs as a process.
use mcp_multiplexer.Base.{
  Text, bytes, ◌≡◌, refl, ap, ◌∙◌, Option, none, some, List, [], ◌∷◌, ◌++◌, is_empty, if◌then◌else◌,
  ◌⊎◌, Option-cases, false, inl, inr, arith,
}
use mcp_multiplexer.Json.{Value, str, Fields, end, GoMap, contents}
use mcp_multiplexer.Json.Access.{get}
use mcp_multiplexer.Host.{
  Host, Answer, ok, err, Session, RawResult, text_content, Answer-cases, unmarshal_map,
}
use mcp_multiplexer.TestServer.{Sdk, Server}
use mcp_multiplexer.TestServer.Running.{
  NotConfigured, build, close, track_close, ensure_known, run_all,
}

-- What a call that may panic gives.
pub data Guarded {ℓ ℓ'} (P : Type ℓ) (A : Type ℓ') : Type (ℓ ⊔ ℓ') where
  panicked : P → Guarded P A
  returned : A → Guarded P A

pub data ConnectError (E : Type 0) : Type 0 where
  server_connect client_connect : E → ConnectError E

-- The SDK's two ends of an in-memory pair, and its handlers over HTTP.
pub record Wire (S W E H : Type 0) : Type 0 where
  pub connect_server : S → W → Option E × W
  pub connect_client : Text → Text → W → Answer E Session × W
  pub streamable_handler : S → H
  pub sse_handler : S → H

module _ {S W E H : Type 0} (host : Host W E) (sdk : Sdk S W E) (wire : Wire S W E H) where
  -- `validateOrPanic`, before what an adapter does.
  abbrev guarded {ℓ} : {A : Type ℓ} → Option NotConfigured → A → Guarded NotConfigured A
  guarded (some e) a = panicked e
  guarded none a = returned a

  tracked :
      Server S W E → Answer E Session × W → (Answer (ConnectError E) Session × W) × Server S W E
  tracked s (err e, w) = ((err (client_connect e), w), s)
  tracked s (ok session, w) = ((ok session, w), track_close (λ w. (host.close session w).1) s)

  linked : Server S W E → Option E × W → (Answer (ConnectError E) Session × W) × Server S W E
  unfolding tracked
  linked s (some e, w) = ((err (server_connect e), w), s)
  linked s (none, w) = tracked s (wire.connect_client (bytes "mcptest-client") (bytes "v0.0.0") w)

  -- `ConnectClient`
  unfoldable pub connect_client :
      Server S W E
      → W
      → Guarded NotConfigured ((Answer (ConnectError E) Session × W) × Server S W E)
  unfolding linked build
  connect_client s w =
      let (srv, s') = build host sdk s in
      guarded (ensure_known s) (linked s' (wire.connect_server srv w))

  must :
      Guarded NotConfigured ((Answer (ConnectError E) Session × W) × Server S W E)
      → Guarded (NotConfigured ⊎ ConnectError E × W × Server S W E) (Session × W × Server S W E)
  must (panicked e) = panicked (inl e)
  must (returned ((err e, w), s)) = panicked (inr (e, w, s))
  must (returned ((ok session, w), s)) = returned (session, w, s)

  -- `MustConnectClient`; its panic for a failure comes after what `ConnectClient` did.
  unfoldable pub must_connect_client :
      Server S W E
      → W
      → Guarded (NotConfigured ⊎ ConnectError E × W × Server S W E) (Session × W × Server S W E)
  unfolding must
  must_connect_client s w = must (connect_client s w)

  -- `HTTPHandler` and `SSEHandler`
  unfoldable pub http_handler : Server S W E → Guarded NotConfigured (H × Server S W E)
  unfolding build
  http_handler s =
      let (srv, s') = build host sdk s in guarded (ensure_known s) (wire.streamable_handler srv, s')

  unfoldable pub sse_handler : Server S W E → Guarded NotConfigured (H × Server S W E)
  unfolding build
  sse_handler s =
      let (srv, s') = build host sdk s in guarded (ensure_known s) (wire.sse_handler srv, s')

  run_all-append :
      (fs : List (W → W)) (f : W → W) (w : W) → run_all (fs ++ f ∷ []) w ≡ f (run_all fs w)
  unfolding run_all
  run_all-append [] f w = refl
  run_all-append (g ∷ fs) f w = run_all-append fs f (g w)

  build-close_fns : (s : Server S W E) → (build host sdk s).1.close_fns ≡ s.close_fns
  unfolding build
  build-close_fns s = ground arith

  -- Connecting leaves to `Close` what it had to do, and then the closing of the new session, if
  -- there is one.
  abbrev pub Tracks : Server S W E → (Answer (ConnectError E) Session × W) × Server S W E → Type 0
  Tracks s ((ok session, w), s') = (w : W) → (close s' w).1 ≡ (host.close session (close s w).1).1
  Tracks s ((err e, w), s') = (w : W) → (close s' w).1 ≡ (close s w).1

  linked-Tracks :
      (s s0 : Server S W E) (r : Option E × W) → s.close_fns ≡ s0.close_fns → Tracks s0 (linked s r)
  unfolding linked close track_close
  linked-Tracks s s0 (some e, w) same = λ v. ap (λ fs. run_all fs v) same
  linked-Tracks s s0 (none, w) same =
      elim (Answer-cases (wire.connect_client (bytes "mcptest-client") (bytes "v0.0.0") w).0) [
        | inl (e, q) ↦ rw (q, tracked) (λ v. ap (λ fs. run_all fs v) same)
        | inr (session, q) ↦
            rw (q, tracked)
              (λ v.
                run_all-append s.close_fns _ v
                ∙ ap (λ fs. (host.close session (run_all fs v)).1) same)
      ]

  abbrev pub ConnectsTo :
      Server S W E
      → Guarded NotConfigured ((Answer (ConnectError E) Session × W) × Server S W E)
      → Type 0
  ConnectsTo s (panicked e) = ensure_known s ≡ some e
  ConnectsTo s (returned r) = Tracks s r

  -- Connecting panics only for options that the server does not accept. Otherwise, `Close` then does
  -- what it did before, and last closes the new session, or nothing more if none was opened.
  pub connect_client-ConnectsTo : (s : Server S W E) (w : W) → ConnectsTo s (connect_client s w)
  unfolding connect_client
  connect_client-ConnectsTo s w = elim (Option-cases (ensure_known s)) [
    | inl q ↦ rw q (linked-Tracks (build host sdk s).1 s _ (build-close_fns s))
    | inr (e, q) ↦ rw q q
  ]

module _ {W E : Type 0} (host : Host W E) where
  said : Option Value → Text
  said (some (str msg)) = msg
  said _ = bytes "ok"

  args_or_nil : Answer E GoMap → Fields
  args_or_nil (ok m) = contents m
  args_or_nil (err e) = end

  echo_args : Option Text → Fields
  unfolding args_or_nil
  echo_args none = end
  echo_args (some raw) = if is_empty raw then end else args_or_nil (unmarshal_map host raw)

  -- The handler of dockertarget's "echo".
  unfoldable pub echo : Option Text → RawResult
  unfolding said echo_args
  echo args = record {
    content = text_content (said (get (bytes "msg") (echo_args args))) ∷ [];
    is_error = false;
  }
