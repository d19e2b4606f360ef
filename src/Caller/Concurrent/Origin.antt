-- ===== src/Caller/Concurrent/Origin.antt =====
-- What is known of a call at each place: who made the result that it has in hand.
use mcp_multiplexer.Base.{
  ◌≡◌, ◌⊎◌, inl, inr, Text, text_eq, true, false, none, List, [], ◌∷◌, Bool-cases, Option-cases,
}
use mcp_multiplexer.Context.{Context}
use mcp_multiplexer.Tool.{CallResult}
use mcp_multiplexer.Host.{Host, ok, err}
use mcp_multiplexer.Options.{Options}
use mcp_multiplexer.Cache.Keys.{is_cacheable}
use mcp_multiplexer.Caller.Run.{Run, Active, no_cache, user, builtin, active_cache}
use mcp_multiplexer.Caller.Dispatch.{Target}
use mcp_multiplexer.Caller.Accounting.{refused, aborted, short_circuit, cache_hit, dispatched}
use mcp_multiplexer.Caller.Cached.{key_of}
use mcp_multiplexer.Caller.Stages.{
  Stage, hooking, aborting, answering, looking, getting, hitting, asking, transforming, failing,
  storing, setting, finishing, ended,
}
use mcp_multiplexer.Caller.Concurrent.{Made, note}

abbrev pub In : Made → List Made → Type 0
In m [] = ⊥
In m (x ∷ made) = (x ≡ m) ⊎ In m made

abbrev pub Grows : List Made → List Made → Type 0
Grows made made' = (m : Made) → In m made → In m made'

module _ {W E : Type 0} (host : Host W E) (opts : Options W E) where
  -- The call itself made the result.
  abbrev pub Own : List Made → Target → Context → CallResult → Type 0
  Own made t ctx r = In (record { target = t; context = ctx; result = r }) made

  -- A call with this key made the result, it is no error, and the tool may be cached.
  abbrev pub Shared : List Made → Text → CallResult → Type 0
  Shared made k r =
      (m : Made) × In m made
      × (key_of host opts m.target m.context ≡ k)
      × (m.result ≡ r)
      × (is_cacheable m.target.info ≡ true)
      × (r.is_error ≡ false)

  abbrev pub Unused : Active host opts → Type 0
  Unused (user c) = ⊥
  Unused no_cache = Unit
  Unused builtin = Unit

  -- What is known of a call at each place.
  abbrev pub Fits : List Made → Stage host opts → Type 0
  Fits made (hitting t ctx r) = Shared made (key_of host opts t ctx) r
  Fits made (getting active t ctx) = Unused active
  Fits made (asking active t ctx) = Unused active
  Fits made (transforming hooks active t ctx r dur) = Unused active
  Fits made (storing active t ctx r dur) = Unused active × Own made t ctx r
  Fits made (setting active t ctx r ttl dur) =
      Unused active × Own made t ctx r × (is_cacheable t.info ≡ true) × (r.is_error ≡ false)
  Fits made (finishing t ctx r dur) = Own made t ctx r
  Fits made (ended cache_hit t ctx (ok r)) = Shared made (key_of host opts t ctx) r
  Fits made (ended dispatched t ctx (ok r)) = Own made t ctx r
  Fits made (ended refused t ctx answer) = Unit
  Fits made (ended aborted t ctx answer) = Unit
  Fits made (ended short_circuit t ctx answer) = Unit
  Fits made (ended route t ctx (err e)) = Unit
  Fits made (hooking hooks t ctx) = Unit
  Fits made (aborting t ctx x) = Unit
  Fits made (answering t ctx r) = Unit
  Fits made (looking t ctx) = Unit
  Fits made (failing t ctx r e dur) = Unit

  pub In-note :
      (x : Stage host opts) (m : Made) (made : List Made) → In m made → In m (note host opts x made)
  unfolding note
  In-note (storing active t ctx r dur) m made h = inr h
  In-note (hooking hooks t ctx) m made h = h
  In-note (aborting t ctx x) m made h = h
  In-note (answering t ctx r) m made h = h
  In-note (looking t ctx) m made h = h
  In-note (getting active t ctx) m made h = h
  In-note (hitting t ctx r) m made h = h
  In-note (asking active t ctx) m made h = h
  In-note (transforming hooks active t ctx r dur) m made h = h
  In-note (failing t ctx r e dur) m made h = h
  In-note (setting active t ctx r ttl dur) m made h = h
  In-note (finishing t ctx r dur) m made h = h
  In-note (ended route t ctx answer) m made h = h

  pub Shared-grow :
      (made made' : List Made) (k : Text) (r : CallResult)
      → Grows made made'
      → Shared made k r
      → Shared made' k r
  Shared-grow made made' k r grow (m, there, key, result, cacheable, good) =
      (m, grow m there, key, result, cacheable, good)

  pub Fits-grow :
      (made made' : List Made) (x : Stage host opts) → Grows made made' → Fits made x → Fits made' x
  Fits-grow made made' (hitting t ctx r) grow f =
      Shared-grow made made' (key_of host opts t ctx) r grow f
  Fits-grow made made' (getting active t ctx) grow f = f
  Fits-grow made made' (asking active t ctx) grow f = f
  Fits-grow made made' (transforming hooks active t ctx r dur) grow f = f
  Fits-grow made made' (storing active t ctx r dur) grow f = (f.0, grow _ f.1)
  Fits-grow made made' (setting active t ctx r ttl dur) grow f = (f.0, grow _ f.1, f.2, f.3)
  Fits-grow made made' (finishing t ctx r dur) grow f = grow _ f
  Fits-grow made made' (ended cache_hit t ctx (ok r)) grow f =
      Shared-grow made made' (key_of host opts t ctx) r grow f
  Fits-grow made made' (ended dispatched t ctx (ok r)) grow f = grow _ f
  Fits-grow made made' (ended refused t ctx answer) grow f = tt
  Fits-grow made made' (ended aborted t ctx answer) grow f = tt
  Fits-grow made made' (ended short_circuit t ctx answer) grow f = tt
  Fits-grow made made' (ended cache_hit t ctx (err e)) grow f = tt
  Fits-grow made made' (ended dispatched t ctx (err e)) grow f = tt
  Fits-grow made made' (hooking hooks t ctx) grow f = tt
  Fits-grow made made' (aborting t ctx x) grow f = tt
  Fits-grow made made' (answering t ctx r) grow f = tt
  Fits-grow made made' (looking t ctx) grow f = tt
  Fits-grow made made' (failing t ctx r e dur) grow f = tt

  pub Unused-active_cache : (s : Run W E) → opts.cache ≡ none → Unused (active_cache host opts s)
  unfolding active_cache
  Unused-active_cache s own = elim (Bool-cases opts.cache_disabled) [
    | inl e ↦ rw e tt
    | inr e ↦ elim (Option-cases s.builtin_cache) [
      | inl q ↦ rw (e, own, q) tt
      | inr (c, q) ↦ rw (e, own, q) tt
    ]
  ]
