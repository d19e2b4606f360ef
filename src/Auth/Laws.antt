-- ===== src/Auth/Laws.antt =====
-- With `Bearer`, no request goes out without the token that its auth block asks for.
use mcp_multiplexer.Base.{
  Text, text_eq, bytes, ◌≡◌, ◌≢◌, refl, ap, ◌∙◌, ◌⊎◌, inl, inr, Option, none, some, [], ◌∷◌, ◌++◌,
  insert, arith,
}
use mcp_multiplexer.Json.{Value, str, Fields}
use mcp_multiplexer.Json.Access.{get}
use mcp_multiplexer.Context.{Context}
use mcp_multiplexer.Host.{Answer, ok, err, Request}
use mcp_multiplexer.Auth.{set_header, named, bearer, bearer_with, auth_round_trip, authorized}

named_cases :
    {E : Type 0} (new : Text → E) (helper key : Text) (v : Option Value)
    → ((s : Text) × (s ≢ []) × (v ≡ some (str s)) × (named new helper key v ≡ ok s))
      ⊎ ((e : E) × (named new helper key v ≡ err e))
unfolding named
named_cases new helper key (some (str (c ∷ s))) = inl (c ∷ s, ground arith, refl, refl)
named_cases new helper key (some (str [])) = inr (_, refl)
named_cases new helper key none = inr (_, refl)
named_cases new helper key (some _) = inr (_, refl)

-- Behind `Bearer`, a request either goes out once, with the token of the auth block in its
-- Authorization header and nothing else changed, the token being a text that is not empty; or it
-- fails, and nothing goes out.
pub bearer-round_trip :
    {W E R : Type 0} (new : Text → E) (canonical : Text → Text)
    (base : Request → W → Answer E R × W) (wrap : Text → E → E) (server : Text) (block : Fields)
    (ctx : Context) (r : Request) (w : W)
    → ((token : Text) × (token ≢ [])
        × (get (bytes "token") block ≡ some (str token))
        × (auth_round_trip base (bearer new canonical) wrap server block ctx r w
            ≡ base
                (record r {
                  header =
                      insert
                        (canonical (bytes "Authorization"))
                        (bytes "Bearer " ++ token)
                        r.header;
                })
                w))
      ⊎ ((e : E) × (auth_round_trip base (bearer new canonical) wrap server block ctx r w
            ≡ (err e, w)))
unfolding auth_round_trip authorized bearer bearer_with
bearer-round_trip new canonical base wrap server block ctx r w =
    elim (named_cases new (bytes "auth.Bearer") (bytes "\"token\"") (get (bytes "token") block)) [
      | inl (token, full, at, e) ↦ inl (
        token,
        full,
        at,
        ap (λ a. authorized base (wrap server) (bearer_with new canonical a r w)) e
            ∙ (unfold set_header in refl),
      )
      | inr (x, e) ↦ inr (
        wrap server x,
        ap (λ a. authorized base (wrap server) (bearer_with new canonical a r w)) e,
      )
    ]
