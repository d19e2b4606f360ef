-- ===== src/Caller/Stages/Entered.antt =====
-- The checks of CallTool before its BeforeCall chain: with which arguments it goes on.
use mcp_multiplexer.Base.{
  ◌≡◌, refl, ◌∙◌, Text, text_eq, bytes, Bool, true, false, Option, none, some, List, [], ◌∷◌,
  is_empty, if◌then◌else◌, Bool-cases, inl, inr,
}
use mcp_multiplexer.Json.{GoMap, contents}
use mcp_multiplexer.Context.{Context}
use mcp_multiplexer.Errors.{Failure}
use mcp_multiplexer.Host.{Host, Answer, ok, err, unmarshal_map, debug}
use mcp_multiplexer.Validate.{validate_schema, find_invalid_args}
use mcp_multiplexer.Options.{Options}
use mcp_multiplexer.Config.{ServerConfig}
use mcp_multiplexer.Caller.Run.{Run, log}
use mcp_multiplexer.Caller.Dispatch.{Outcome, Target, before_loop}
use mcp_multiplexer.Caller.Call.{
  transform_args, final_args, schema_checked, check_schema, placeholders_checked, unmarshalled,
  prepare,
}
use mcp_multiplexer.Caller.Sent.{sends}
use mcp_multiplexer.Caller.Rejections.{
  violations, schema_refusal, placeholder_refusal, json_refusal, argument_refusal,
}

module _ {W E : Type 0} (host : Host W E) (opts : Options W E) where
  -- The arguments that hooks, the cache and the schema check see, once they have been transformed.
  abbrev pub decoded_args : Answer E GoMap → ServerConfig → Text → Text
  decoded_args (err e) config args = args
  decoded_args (ok raw) config args =
      final_args host opts (transform_args host opts config raw) args

  abbrev pub settled_args : ServerConfig → Text → Text
  settled_args config args =
      if is_empty args then args else decoded_args (unmarshal_map host args) config args

  -- Unless the call is refused, it goes on at the BeforeCall chain, for the target but for its
  -- arguments, which are these, with the cache and what was sent as they were.
  abbrev pub Enters :
      Text → Option (Failure E) → Context → Target → Run W E → Outcome host opts → Type 0
  Enters final (some e) ctx t s out = Unit
  Enters final none ctx t s out =
      (t' : Target) × (s' : Run W E) × (t' ≡ record t { arguments = t'.arguments; args = t'.args })
      × (t'.args ≡ final)
      × (s'.builtin_cache ≡ s.builtin_cache)
      × (sends s'.trace ≡ sends s.trace)
      × (out ≡ before_loop host opts opts.before_call t' ctx s')

  schema_checked-Enters :
      (errs : List Text) (ctx : Context) (t : Target) (s : Run W E)
      → Enters t.args (violations host opts errs) ctx t s (schema_checked host opts errs ctx t s)
  unfolding schema_checked
  schema_checked-Enters [] ctx t s = (t, s, refl, refl, refl, refl, refl)
  schema_checked-Enters (x ∷ xs) ctx t s = tt

  if-Enters :
      (b : Bool) (e : Option (Failure E)) (ctx : Context) (t : Target) (s : Run W E)
      (x y : Outcome host opts)
      → Enters t.args e ctx t s x
      → Enters t.args none ctx t s y
      → Enters t.args (if b then e else none) ctx t s (if b then x else y)
  if-Enters true e ctx t s x y h k = h
  if-Enters false e ctx t s x y h k = k

  check_schema-Enters :
      (ctx : Context) (t : Target) (s : Run W E)
      → Enters t.args
          (schema_refusal host opts t.info t.args)
          ctx
          t
          s
          (check_schema host opts ctx t s)
  unfolding check_schema
  check_schema-Enters ctx t s =
      if-Enters opts.schema_validation _ ctx t s _ _
        (schema_checked-Enters (validate_schema host.check_schema t.info.input_schema t.args) ctx t
          s)
        (t, s, refl, refl, refl, refl, refl)

  -- The change of the arguments, and of the state but for the cache, before going on.
  Enters-change :
      (e : Option (Failure E)) (ctx : Context) (t : Target) (arguments : Option GoMap) (args : Text)
      (s s' : Run W E) (out : Outcome host opts)
      → s'.builtin_cache ≡ s.builtin_cache
      → sends s'.trace ≡ sends s.trace
      → Enters args e ctx (record t { arguments = arguments; args = args }) s' out
      → Enters args e ctx t s out
  Enters-change (some e) ctx t arguments args s s' out same quiet h = tt
  Enters-change none ctx t arguments args s s' out same quiet (t', s'', e, final, kept, sent, at) =
      (t', s'', e, final, kept ∙ same, sent ∙ quiet, at)

  placeholders_checked-Enters :
      (bad : List Text) (config : ServerConfig) (raw : GoMap) (ctx : Context) (t : Target)
      (s : Run W E)
      → Enters
          (final_args host opts (transform_args host opts config raw) t.args)
          (placeholder_refusal host opts bad config t.info raw t.args)
          ctx
          t
          s
          (placeholders_checked host opts bad config raw ctx t s)
  unfolding placeholders_checked log sends
  placeholders_checked-Enters (x ∷ xs) config raw ctx t s = tt
  placeholders_checked-Enters [] config raw ctx t s =
      Enters-change _ ctx t _ _ s (log host opts debug (bytes "mcpx: call") s) _ refl refl
        (check_schema-Enters ctx _ _)

  unmarshalled-Enters :
      (raw : Answer E GoMap) (config : ServerConfig) (ctx : Context) (t : Target) (s : Run W E)
      → Enters
          (decoded_args raw config t.args)
          (json_refusal host opts raw config t.info t.args)
          ctx
          t
          s
          (unmarshalled host opts raw config ctx t s)
  unfolding unmarshalled
  unmarshalled-Enters (err e) config ctx t s = tt
  unmarshalled-Enters (ok raw) config ctx t s =
      placeholders_checked-Enters (find_invalid_args host.unicode (contents raw)) config raw ctx t s

  pub prepare-Enters :
      (config : ServerConfig) (ctx : Context) (t : Target) (s : Run W E)
      → Enters
          (settled_args config t.args)
          (argument_refusal host opts config t.info t.args)
          ctx
          t
          s
          (prepare host opts config ctx t s)
  unfolding prepare
  prepare-Enters config ctx t s = elim (Bool-cases (is_empty t.args)) [
    | inl e ↦ rw e (check_schema-Enters ctx t s)
    | inr e ↦ rw e (unmarshalled-Enters (unmarshal_map host t.args) config ctx t s)
  ]
