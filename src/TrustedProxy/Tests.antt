-- ===== src/TrustedProxy/Tests.antt =====
-- A request through a proxy, and the theorems about client addresses at it.
use skrift.Prelude.{
  ℕ, ◌≡◌, refl, true, false, Option, none, some, List, [], ◌∷◌, arith, ℕ_beq, string_beq, leb, ok,
}
use skrift.Prelude.Text.{Text, codes}
use skrift.TrustedProxy.{
  Address, v4, Network, net4, IpLibrary, Scope, xff, get_header_value, parse_xff, resolve_client_ip,
  is_trusted,
}
use skrift.TrustedProxy.Sources.{
  TrustConfig, TrustedProxyManager, rebuild_static, rebuild_snapshot, refresh_all, IsConsistent,
  refresh_all-IsConsistent,
}
use skrift.TrustedProxy.Client.{Fits, resolve_client_ip-Fits, resolve_client_ip-forged}

-- An address is one digit, and a network holds all digits from one on.
abbrev digit_address : Text → Option (Address ℕ ℕ)
digit_address (c ∷ []) = some (v4 c)
digit_address _ = none

abbrev digit_network : Text → Option (Network ℕ ℕ)
digit_network [] = none
digit_network (c ∷ s) = some (net4 c)

abbrev digits : IpLibrary ℕ ℕ ℕ ℕ
digits = record {
  ip_address = digit_address;
  ip_network = digit_network;
  ipv4_mapped = λ a. none;
  contains4 = λ n a. leb n a;
  contains6 = λ n a. false;
}

abbrev trusted : List (Network ℕ ℕ)
trusted = net4 b'5' ∷ []

abbrev request : Scope
request = record {
  client = some (codes "9");
  headers = (codes "X-Forwarded-For", codes " 1,, 2 ,7") ∷ [];
}

program : Unit {0}
unfolding get_header_value parse_xff resolve_client_ip is_trusted
program = tt

parse_xff_test : parse_xff (codes " 1,, 2 ,7") ≡ codes "1" ∷ codes "2" ∷ codes "7" ∷ []
unfolding program
parse_xff_test = refl

resolve_client_ip_test :
    resolve_client_ip digits trusted request (codes "x-forwarded-for") none 5 true
    ≡ ok (codes "2", xff)
unfolding program
resolve_client_ip_test = refl

resolve_client_ip-Fits_example :
    Fits digits trusted request
      (codes "x-forwarded-for")
      none
      true
      5
      (resolve_client_ip digits trusted request (codes "x-forwarded-for") none 5 true)
resolve_client_ip-Fits_example =
    resolve_client_ip-Fits digits trusted request (codes "x-forwarded-for") none true 5

resolve_client_ip-forged_example :
    resolve_client_ip digits trusted request (codes "x-forwarded-for") none 2 false
    ≡ ok (codes "2", xff)
unfolding program
resolve_client_ip-forged_example =
    resolve_client_ip-forged digits trusted request (codes "x-forwarded-for") (codes " 1,, 2 ,7") 2
      (codes "1" ∷ []) (codes "7" ∷ []) (codes "2") refl refl refl (omega arith) ((refl, refl), tt)
      refl refl

abbrev config : TrustConfig
config = record { explicit = true; trust_private_networks = none; trusted = codes "5" ∷ [] }

abbrev blank_manager : TrustedProxyManager ℕ ℕ
blank_manager = record {
  static_networks = [];
  sources = record { name = codes "cdn"; networks = [] } ∷ [];
  snapshot = [];
}

abbrev manager : TrustedProxyManager ℕ ℕ
manager = rebuild_snapshot (rebuild_static digits config false false blank_manager)

refresh_test :
    (refresh_all digits manager ((0, some (codes "8" ∷ [])) ∷ (0, none) ∷ [])).snapshot
    ≡ net4 b'5' ∷ net4 b'8' ∷ []
unfolding refresh_all rebuild_static
refresh_test = refl

refresh_all-IsConsistent_example :
    IsConsistent digits (refresh_all digits manager ((0, some (codes "8" ∷ [])) ∷ (0, none) ∷ []))
    × (is_trusted digits manager.static_networks (codes "6") ≡ true
        → is_trusted digits
            (refresh_all digits manager ((0, some (codes "8" ∷ [])) ∷ (0, none) ∷ [])).snapshot
            (codes "6")
          ≡ true)
unfolding rebuild_snapshot
refresh_all-IsConsistent_example =
    refresh_all-IsConsistent digits manager ((0, some (codes "8" ∷ [])) ∷ (0, none) ∷ [])
      (codes "6") refl
