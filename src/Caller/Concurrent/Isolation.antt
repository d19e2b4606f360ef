-- ===== src/Caller/Concurrent/Isolation.antt =====
-- With the default key, calls that run at once share results only within a scope.
use mcp_multiplexer.Base.{ℕ, ◌<◌, ◌≡◌, subst, false, none, some, true}
use mcp_multiplexer.Context.{Context, cache_scope}
use mcp_multiplexer.Tool.{CallResult}
use mcp_multiplexer.Host.{Host, ok}
use mcp_multiplexer.Options.{Options}
use mcp_multiplexer.Cache.Lru.{new_lru_cache}
use mcp_multiplexer.Cache.Keys.{is_cacheable, canonical_json, has_bar, default_cache_key_inj}
use mcp_multiplexer.Caller.Run.{Run, key_fn}
use mcp_multiplexer.Caller.Dispatch.{Target}
use mcp_multiplexer.Caller.Accounting.{cache_hit}
use mcp_multiplexer.Caller.Cached.{key_of}
use mcp_multiplexer.Caller.Stages.{ended}
use mcp_multiplexer.Caller.Concurrent.{Made, System, arriving, Reach}
use mcp_multiplexer.Caller.Concurrent.Origin.{In, Fits}
use mcp_multiplexer.Caller.Concurrent.Served.{Reach-Fits}

-- Neither the scope nor the server nor the tool holds a bar.
abbrev pub BarFree : Target → Context → Type 0
BarFree t ctx =
    (has_bar (cache_scope ctx) ≡ false) × (has_bar t.server ≡ false) × (has_bar t.tool ≡ false)

module _ {W E : Type 0} (host : Host W E) (opts : Options W E) where
  -- The two calls are for one scope, server and tool, with the same arguments.
  abbrev pub SameCall : Target → Context → Target → Context → Type 0
  SameCall t ctx t' ctx' =
      (cache_scope ctx ≡ cache_scope ctx')
      × (t.server ≡ t'.server)
      × (t.tool ≡ t'.tool)
      × (canonical_json host t.args ≡ canonical_json host t'.args)

  key_of-SameCall :
      (t t' : Target) (ctx ctx' : Context)
      → opts.cache_key ≡ none
      → BarFree t ctx
      → BarFree t' ctx'
      → key_of host opts t ctx ≡ key_of host opts t' ctx'
      → SameCall t ctx t' ctx'
  unfolding key_fn
  key_of-SameCall t t' ctx ctx' default b b' same =
      default_cache_key_inj host ctx ctx' t.server t'.server t.tool t'.tool t.args t'.args b.0 b'.0
        b.1 b'.1 b.2 b'.2 (rw default at same)

  -- Whatever the interleaving of calls on a new built-in cache, with the default key: a call that is
  -- answered from the cache is given a result that a call made for the same scope, the same server
  -- and tool, and the same arguments; it is no error, and that call's tool may be cached. This holds
  -- where no scope, server or tool holds a bar.
  pub Reach-Isolated :
      (size : ℕ) (targets : ℕ → Target) (contexts : ℕ → Context) (s : Run W E) (i : ℕ) (t : Target)
      (ctx : Context) (r : CallResult) {z : System host opts}
      → 0 < size
      → opts.cache ≡ none
      → opts.cache_key ≡ none
      → s.builtin_cache ≡ some (new_lru_cache size)
      → Reach host opts (arriving host opts targets contexts s) z
      → z.calls i ≡ ended cache_hit t ctx (ok r)
      → BarFree t ctx
      → ((m : Made) → In m z.made → BarFree m.target m.context)
      → (m : Made) × In m z.made
        × (m.result ≡ r)
        × SameCall m.target m.context t ctx
        × (is_cacheable m.target.info ≡ true)
        × (r.is_error ≡ false)
  Reach-Isolated size targets contexts s i t ctx r {z} p own default new reach answered b free =
      let (m, there, key, result, cacheable, good) =
        subst (Fits host opts z.made) answered
          (Reach-Fits host opts size targets contexts s i p own new reach) in
      (
        m,
        there,
        result,
        key_of-SameCall m.target t m.context ctx default (free m there) b key,
        cacheable,
        good,
      )
