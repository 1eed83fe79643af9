-- ===== src/TrustedProxy.antt =====
-- skrift/lib/trusted_proxy.py: which peers are trusted, and who the client of a request is.
-- Parsing and containment of addresses are those of Python's `ipaddress`, a parameter.

pub mod Walk
pub mod Client
pub mod Sources
mod Tests
use skrift.Prelude.{
  ℕ, zero, suc, ◌-◌, Bool, true, false, not, Option, none, some, List, [], ◌∷◌, map, ◌==◌, ℕ_beq,
  string_beq, ltb, if◌then◌else◌, is_some, or_else, Result, ok, raise, length, drop, filter, head?,
  any, reverse,
}
use skrift.Prelude.Text.{Text, text_beq, codes, strip, lower_code, split_commas, is_blank}

pub data Address (V4 V6 : Type 0) : Type 0 where
  v4 : V4 → Address V4 V6
  v6 : V6 → Address V4 V6

pub data Network (N4 N6 : Type 0) : Type 0 where
  net4 : N4 → Network N4 N6
  net6 : N6 → Network N4 N6

-- The module `ipaddress`; `none` is a ValueError.
pub record IpLibrary (V4 V6 N4 N6 : Type 0) : Type 0 where
  pub ip_address : Text → Option (Address V4 V6)
  pub ip_network : Text → Option (Network N4 N6)
  pub ipv4_mapped : V6 → Option V4
  pub contains4 : N4 → V4 → Bool
  pub contains6 : N6 → V6 → Bool

pub data StrictResolutionError : Type 0 where
  malformed_cdn_header no_forwarding_header empty_forwarding_header exceeds_max_hops malformed_hop
        every_hop_trusted :
      StrictResolutionError

-- The tag that says where an address came from; a CDN header is named.
pub data Provenance : Type 0 where
  socket xff xff_all_trusted : Provenance
  cdn : Text → Provenance

-- What is read of an ASGI scope: the peer, and the headers, as text.
pub record Scope : Type 0 where
  pub client : Option Text
  pub headers : List (Text × Text)

abbrev pub peer_of : Scope → Text
peer_of scope = or_else scope.client (codes "unknown")

abbrev pub find_header : Text → List (Text × Text) → Option Text
find_header target [] = none
find_header target ((key, value) ∷ headers) =
    let rest = find_header target headers in
    if map lower_code key == target then some value else rest

unfoldable pub get_header_value : Scope → Text → Option Text
get_header_value scope name = find_header (map lower_code name) scope.headers

unfoldable pub parse_xff : Text → List Text
parse_xff value = filter (λ entry. not (is_blank entry)) (map strip (split_commas value))

-- `chain[-max_hops:]`: with zero, the whole list
abbrev pub last_hops : ℕ → List Text → List Text
last_hops zero chain = chain
last_hops (suc n) chain = drop (length chain - suc n) chain

module _ {V4 V6 N4 N6 : Type 0} (lib : IpLibrary V4 V6 N4 N6) where
  -- An IPv4-mapped IPv6 address counts as the IPv4 address.
  abbrev pub normalize : Address V4 V6 → Address V4 V6
  normalize (v4 a) = v4 a
  normalize (v6 a) = elim (lib.ipv4_mapped a) [ none ↦ v6 a | some b ↦ v4 b ]

  abbrev pub in_network : Address V4 V6 → Network N4 N6 → Bool
  in_network (v4 a) (net4 n) = lib.contains4 n a
  in_network (v6 a) (net6 n) = lib.contains6 n a
  in_network (v4 a) (net6 n) = false
  in_network (v6 a) (net4 n) = false

  -- `ip_str in trusted`
  unfoldable pub is_trusted : List (Network N4 N6) → Text → Bool
  is_trusted networks ip_str = elim (lib.ip_address (strip ip_str)) [
    | none ↦ false
    | some addr ↦ any (in_network (normalize addr)) networks
  ]

  unfoldable pub from_strings : List Text → List (Network N4 N6)
  from_strings [] = []
  from_strings (v ∷ values) =
      let rest = from_strings values in
      if is_blank (strip v)
      then rest
      else elim (lib.ip_network (strip v)) [ none ↦ rest | some net ↦ net ∷ rest ]

  abbrev pub is_valid_ip : Text → Bool
  is_valid_ip value = is_some (lib.ip_address value)

  module _ (trusted : List (Network N4 N6)) where
    -- The loop over the hops, nearest first: the first valid address that is not trusted.
    unfoldable pub first_untrusted : Bool → List Text → Result StrictResolutionError (Option Text)
    unfolding is_trusted
    first_untrusted strict [] = ok none
    first_untrusted strict (addr ∷ hops) =
        let rest = first_untrusted strict hops in
        if not (is_valid_ip addr)
        then (if strict then raise malformed_hop else rest)
        else if is_trusted trusted addr
        then rest
        else ok (some addr)

    -- After the loop; the chain is not empty here unless `max_hops` made it so, and then it is not.
    abbrev pub settle :
        Bool
        → List Text
        → Result StrictResolutionError (Option Text)
        → Result StrictResolutionError (Text × Provenance)
    settle strict chain (raise err) = raise err
    settle strict chain (ok (some addr)) = ok (addr, xff)
    settle true chain (ok none) = raise every_hop_trusted
    settle false chain (ok none) = ok (or_else (head? chain) [], xff_all_trusted)

    unfoldable pub resolve_chain :
        ℕ → Bool → List Text → Result StrictResolutionError (Text × Provenance)
    unfolding first_untrusted
    resolve_chain max_hops strict chain =
        if ltb max_hops (length chain)
        then (if strict
            then raise exceeds_max_hops
            else settle strict (last_hops max_hops chain)
                (first_untrusted strict (reverse (last_hops max_hops chain))))
        else settle strict chain (first_untrusted strict (reverse chain))

    -- What the CDN header decides; `none` goes on to the forwarding header.
    unfoldable pub from_cdn :
        Scope → Option Text → Bool → Option (Result StrictResolutionError (Text × Provenance))
    unfolding get_header_value
    from_cdn scope none strict = none
    from_cdn scope (some []) strict = none
    from_cdn scope (some (c ∷ name)) strict = elim (get_header_value scope (c ∷ name)) [
      | none ↦ none
      | some value ↦
          if is_valid_ip (strip value)
          then some (ok (strip value, cdn (c ∷ name)))
          else if strict
          then some (raise malformed_cdn_header)
          else none
    ]

    unfoldable pub from_forwarded :
        Scope → Text → ℕ → Bool → Result StrictResolutionError (Text × Provenance)
    unfolding get_header_value parse_xff resolve_chain
    from_forwarded scope client_ip_header max_hops strict =
        elim (get_header_value scope client_ip_header) [
          | none ↦ if strict then raise no_forwarding_header else ok (peer_of scope, socket)
          | some value ↦ elim (parse_xff value) [
            | [] ↦ if strict then raise empty_forwarding_header else ok (peer_of scope, socket)
            | first ∷ others ↦ resolve_chain max_hops strict (first ∷ others)
          ]
        ]

    unfoldable pub resolve_client_ip :
        Scope → Text → Option Text → ℕ → Bool → Result StrictResolutionError (Text × Provenance)
    unfolding is_trusted from_cdn from_forwarded
    resolve_client_ip scope client_ip_header cdn_header max_hops strict =
        if not (is_trusted trusted (peer_of scope))
        then ok (peer_of scope, socket)
        else or_else (from_cdn scope cdn_header strict)
            (from_forwarded scope client_ip_header max_hops strict)
