-- ===== src/Auth.antt =====
-- auth/auth.go, and the round trippers of transport.go that call an AuthFunc. `canonical` is
-- `textproto.CanonicalMIMEHeaderKey`, which `Header.Set` applies; `new` is `errors.New`.
pub mod Laws
use mcp_multiplexer.Base.{
  Text, text_eq, bytes, Option, none, some, List, [], ◌∷◌, ◌++◌, insert, if◌then◌else◌, is_empty,
}
use mcp_multiplexer.Json.{Value, str, Fields}
use mcp_multiplexer.Json.Access.{get}
use mcp_multiplexer.Context.{Context}
use mcp_multiplexer.Host.{Answer, ok, err, Request}
use mcp_multiplexer.Options.{AuthFunc}

module _ {E : Type 0} (new : Text → E) where
  -- A text of the auth block, or one of the three errors; `helper` and `key` are what they name.
  named : Text → Text → Option Value → Answer E Text
  named helper key none = err (new (helper ++ (bytes ": missing data[" ++ (key ++ bytes "]"))))
  named helper key (some (str [])) =
      err (new (helper ++ (bytes ": empty data[" ++ (key ++ bytes "]"))))
  named helper key (some (str (c ∷ s))) = ok (c ∷ s)
  named helper key (some _) =
      err (new (helper ++ (bytes ": data[" ++ (key ++ bytes "] is not a string"))))

-- `r.Header.Set`
unfoldable pub set_header : (Text → Text) → Text → Text → Request → Request
set_header canonical name v r = record r { header = insert (canonical name) v r.header }

module _ {W E : Type 0} (new : Text → E) (canonical : Text → Text) where
  bearer_with : Answer E Text → Request → W → (Option E × Request) × W
  unfolding set_header
  bearer_with (err e) r w = ((some e, r), w)
  bearer_with (ok token) r w =
      ((none, set_header canonical (bytes "Authorization") (bytes "Bearer " ++ token) r), w)

  -- `Bearer`
  unfoldable pub bearer : AuthFunc W E
  unfolding named bearer_with
  bearer ctx server r block w =
      bearer_with (named new (bytes "auth.Bearer") (bytes "\"token\"") (get (bytes "token") block))
        r w

  header_with : Answer E Text → Answer E Text → Request → W → (Option E × Request) × W
  unfolding set_header
  header_with (err e) v r w = ((some e, r), w)
  header_with (ok name) (err e) r w = ((some e, r), w)
  header_with (ok name) (ok v) r w = ((none, set_header canonical name v r), w)

  -- `HeaderToken`
  unfoldable pub header_token : AuthFunc W E
  unfolding named header_with
  header_token ctx server r block w =
      header_with
        (named new (bytes "auth.HeaderToken") (bytes "\"tokenName\"")
          (get (bytes "tokenName") block))
        (named new (bytes "auth.HeaderToken") (bytes "\"value\"") (get (bytes "value") block)) r w

module _ {W E R : Type 0} (base : Request → W → Answer E R × W) where
  authorized : (E → E) → (Option E × Request) × W → Answer E R × W
  authorized wrap ((some e, r), w) = (err (wrap e), w)
  authorized wrap ((none, r), w) = base r w

  -- `(*authFuncRoundTripper).RoundTrip`: `wrap` adds the server's name to the error.
  unfoldable pub auth_round_trip :
      AuthFunc W E → (Text → E → E) → Text → Fields → Context → Request → W → Answer E R × W
  unfolding authorized
  auth_round_trip fn wrap server block ctx r w = authorized (wrap server) (fn ctx server r block w)

  -- `(*bearerRoundTripper).RoundTrip`
  unfoldable pub bearer_round_trip : (Text → Text) → Text → Request → W → Answer E R × W
  bearer_round_trip canonical token r w =
      if is_empty token
      then base r w
      else base (set_header canonical (bytes "Authorization") (bytes "Bearer " ++ token) r) w
