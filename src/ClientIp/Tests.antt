-- ===== src/ClientIp/Tests.antt =====
-- A request without a proxy, and the theorem about the middleware at it.
use skrift.Prelude.{ℕ, refl, true, none, some, List, [], ◌∷◌, ℕ_beq, string_beq, eqb}
use skrift.Prelude.Text.{codes}
use skrift.TrustedProxy.{v4, Network, net4, IpLibrary}
use skrift.ClientIp.{RequestScope, ResolutionConfig, handle}
use skrift.ClientIp.Middleware.{IsSound, handle-IsSound}

-- Only one address is known, and no network.
abbrev one_address : IpLibrary ℕ ℕ ℕ ℕ
one_address = record {
  ip_address = λ s. some (v4 7);
  ip_network = λ s. none;
  ipv4_mapped = λ a. none;
  contains4 = λ n a. eqb n a;
  contains6 = λ n a. eqb n a;
}

abbrev trusted : List (Network ℕ ℕ)
trusted = net4 7 ∷ []

abbrev config : ResolutionConfig
config = record {
  client_ip_header = codes "x-forwarded-for";
  cdn_header = none;
  max_hops = 5;
  strict = true;
}

abbrev request : RequestScope
request = record {
  scope_type = "http";
  scope = record { client = some (codes "7"); headers = [] };
  state = none;
}

handle-IsSound_example :
    IsSound one_address trusted config request (handle one_address trusted config request)
handle-IsSound_example = handle-IsSound one_address trusted config request refl
