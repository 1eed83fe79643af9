-- ===== src/ClientIp.antt =====
-- skrift/middleware/client_ip.py, which stores the client's address with a request, and
-- skrift/lib/client_ip.py, which later code reads it with.
pub mod Middleware
mod Tests
use skrift.Prelude.{
  ℕ, String, Bool, ◌||◌, Option, none, some, List, ◌==◌, ℕ_beq, string_beq, if◌then◌else◌, or_else,
  Result, ok, raise,
}
use skrift.Prelude.Text.{Text, codes, is_blank}
use skrift.TrustedProxy.{
  IpLibrary, Network, Scope, Provenance, socket, xff, xff_all_trusted, cdn, StrictResolutionError,
  peer_of, resolve_client_ip,
}

-- What the middleware writes into `scope["state"]`.
pub record ClientState : Type 0 where
  pub client_ip : Option Text
  pub client_ip_source : Option Text

pub record RequestScope : Type 0 where
  pub scope_type : String
  pub scope : Scope
  pub state : Option ClientState

-- The options of `TrustedProxyConfig` that the resolution reads, and the manager's CDN header.
pub record ResolutionConfig : Type 0 where
  pub client_ip_header : Text
  pub cdn_header : Option Text
  pub max_hops : ℕ
  pub strict : Bool

-- The app is called with a scope, or the request is answered at once.
pub data Outcome : Type 0 where
  passed : RequestScope → Outcome
  bad_request : StrictResolutionError → Outcome
  websocket_close : ℕ → Outcome

abbrev pub not_blank : Option Text → Option Text
not_blank none = none
not_blank (some s) = if is_blank s then none else some s

abbrev pub stored_ip : Option ClientState → Option Text
stored_ip none = none
stored_ip (some state) = not_blank state.client_ip

abbrev pub stored_source : Option ClientState → Option Text
stored_source none = none
stored_source (some state) = not_blank state.client_ip_source

unfoldable pub get_client_ip : RequestScope → Text
get_client_ip request = or_else (stored_ip request.state) (peer_of request.scope)

unfoldable pub get_client_ip_source : RequestScope → Text
get_client_ip_source request = or_else (stored_source request.state) (codes "unknown")

abbrev pub tag_of : Provenance → Text
tag_of socket = codes "socket"
tag_of xff = codes "xff"
tag_of xff_all_trusted = codes "xff-all-trusted"
tag_of (cdn name) = name

abbrev pub is_request : String → Bool
is_request scope_type = (scope_type == "http") || (scope_type == "websocket")

-- `scope.setdefault("state", {})`, then both keys
abbrev pub with_client : RequestScope → Text × Provenance → RequestScope
with_client request (ip, source) = record request {
  state = some (record { client_ip = some ip; client_ip_source = some (tag_of source) });
}

abbrev pub answer : RequestScope → Result StrictResolutionError (Text × Provenance) → Outcome
answer request (ok client) = passed (with_client request client)
answer request (raise err) =
    if request.scope_type == "http" then bad_request err else websocket_close 1008

module _ {V4 V6 N4 N6 : Type 0} (lib : IpLibrary V4 V6 N4 N6) where
  unfoldable pub handle : List (Network N4 N6) → ResolutionConfig → RequestScope → Outcome
  handle trusted config request =
      if is_request request.scope_type
      then answer request (
          resolve_client_ip lib trusted request.scope config.client_ip_header config.cdn_header
            config.max_hops config.strict)
      else passed request
