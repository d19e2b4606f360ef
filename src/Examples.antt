-- ===== src/Examples.antt =====
-- examples/redact/main.go and examples/policy/main.go: the hooks of the two example programs.
pub mod Programs
use mcp_multiplexer.Base.{
  Text, bytes, ◌≡◌, refl, sym, subst, if◌then◌else◌, true, none, some, List, [], ◌∷◌, ◌++◌, map,
  lookup, text_eq,
}
use mcp_multiplexer.Context.{Context}
use mcp_multiplexer.Tool.{
  ToolInfo, ContentKind, content_text, content_image, content_other, ContentPart, CallResult,
}
use mcp_multiplexer.Host.{Host}
use mcp_multiplexer.Options.{BeforeCallHook, ResultTransformHook}
use mcp_multiplexer.Mux.{Mux, ServerEntry}
use mcp_multiplexer.Caller.Run.{Run}
use mcp_multiplexer.Caller.Call.{find_tool, call_tool}
use mcp_multiplexer.Caller.Tally.{tally}
use mcp_multiplexer.Caller.Concurrent.Transformed.{Ensures}
use mcp_multiplexer.Policy.Guards.{Aborts, IsGuarded, append-IsGuarded, call_tool-Unsent}

-- `replace` is `ssnPattern.ReplaceAllString`, with the replacement "SSN: [REDACTED]".
module _ (replace : Text → Text) where
  redact_text : ContentKind → Text → Text
  redact_text content_text text = replace text
  redact_text content_image text = text
  redact_text content_other text = text

  redact_part : ContentPart → ContentPart
  unfolding redact_text
  redact_part p = record p { text = redact_text p.kind p.text }

  unfoldable pub redacted : CallResult → CallResult
  unfolding redact_part
  redacted r = record r { text = replace r.text; parts = map redact_part r.parts }

  unfoldable pub redact : {W E : Type 0} → ResultTransformHook W E
  redact ctx server tool info r w = ((redacted r, none), w)

  -- The result is the redaction of some result.
  abbrev pub IsRedacted : CallResult → Type 0
  IsRedacted r = (r0 : CallResult) × (redacted r0 ≡ r)

  -- As the last ResultTransform hook, `redact` ensures that results are redacted.
  pub redact-Ensures : {W E : Type 0} → Ensures {W = W} {E = E} IsRedacted (redact ∷ [])
  unfolding redact
  redact-Ensures ctx server tool info r w h = (r, refl)

-- `new` is `errors.New`.
module _ {E : Type 0} (new : Text → E) where
  unfoldable pub block_destructive : {W : Type 0} → BeforeCallHook W E
  block_destructive ctx server tool info args w =
      if info.destructive
      then ((none, none, some (new (bytes "blocked: destructive tool"))), w)
      else ((none, none, none), w)

  -- The program's gate holds: no call of a destructive tool is sent.
  pub block_destructive-Unsent :
      {W : Type 0} (host : Host W E) (mx : Mux W E) (ctx : Context) (server tool args : Text)
      (s : Run W E) (entry : ServerEntry) (info : ToolInfo)
      (before hooks : List (BeforeCallHook W E))
      → mx.opts.before_call ≡ before ++ block_destructive ∷ hooks
      → lookup server mx.servers ≡ some entry
      → find_tool tool entry.tools ≡ some info
      → info.destructive ≡ true
      → (tally (call_tool host mx ctx server tool args s).1.trace).sends ≡ (tally s.trace).sends
  unfolding block_destructive
  block_destructive-Unsent host mx ctx server tool args s entry info before hooks chain at has bad =
      let aborts : Aborts block_destructive info =
        λ ctx server tool args w. (new (bytes "blocked: destructive tool"), rw bad refl) in
      call_tool-Unsent host mx ctx server tool args s entry info at has (
        subst (λ l. IsGuarded l info) (sym chain)
          (append-IsGuarded block_destructive info before hooks aborts))
