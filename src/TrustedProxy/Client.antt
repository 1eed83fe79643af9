-- ===== src/TrustedProxy/Client.antt =====
-- Who `resolve_client_ip` says the client is.
use skrift.Prelude.{◌⊎◌}
use mathlib.Core.List.{head?}
use skrift.Prelude.{List-cases}
use skrift.Prelude.{
  ℕ, zero, suc, ◌-◌, ◌<◌, ◌≡◌, refl, sym, ap, ◌∙◌, inl, inr, Bool, true, false, Option, none, some,
  List, [], ◌∷◌, ◌++◌, arith, ℕ_beq, string_beq, ltb, if◌then◌else◌, Bool-cases, Option-cases,
  or_else, Result, ok, raise, length, drop, All, length-append, reverse, reverse-append,
  reverse-reverse, drop-append, reverse-split, All-reverse, if_rule,
}
use mathlib.Core.List.{append_assoc}
use skrift.Prelude.Text.{Text, strip}
use skrift.TrustedProxy.{
  IpLibrary, Network, Scope, Provenance, socket, xff, xff_all_trusted, cdn, StrictResolutionError,
  no_forwarding_header, empty_forwarding_header, is_trusted, is_valid_ip, first_untrusted,
  last_hops, peer_of, get_header_value, parse_xff, settle, resolve_chain, from_cdn, from_forwarded,
  resolve_client_ip,
}
use skrift.TrustedProxy.Walk.{
  IsPassed, Found, first_untrusted-Found, first_untrusted-append, last_hops-suffix,
}

module _ {V4 V6 N4 N6 : Type 0} (lib : IpLibrary V4 V6 N4 N6) (trusted : List (Network N4 N6)) where
  -- The address stands in the chain, is valid and not trusted, and behind it are only hops that
  -- the walk passes.
  pub record IsHop (strict : Bool) (chain : List Text) (ip : Text) : Type 0 where
    pub far : List Text
    pub near : List Text
    pub split : chain ≡ far ++ ip ∷ near
    pub passed : All (IsPassed lib trusted strict) near
    pub valid : is_valid_ip lib ip ≡ true
    pub stranger : is_trusted lib trusted ip ≡ false

  module _ (scope : Scope) (client_ip_header : Text) (cdn_header : Option Text) (strict : Bool)
      (max_hops : ℕ) where
    -- The hops that are looked at: all of them, or the last `max_hops`.
    abbrev pub IsKept : Text → List Text → List Text → Type 0
    IsKept value front chain =
        (front ++ chain ≡ parse_xff value)
        × ((front ≡ []) ⊎ (chain ≡ last_hops max_hops (parse_xff value)))

    -- Why an address with a tag may be called the client.
    abbrev pub IsJustified : Text → Provenance → Type 0
    IsJustified ip socket = ip ≡ peer_of scope
    IsJustified ip (cdn name) =
        (is_trusted lib trusted (peer_of scope) ≡ true)
        × (cdn_header ≡ some name)
        × ((value : Text) × (get_header_value scope name ≡ some value) × (ip ≡ strip value))
        × (is_valid_ip lib ip ≡ true)
    IsJustified ip xff =
        (is_trusted lib trusted (peer_of scope) ≡ true)
        × ((value : Text) × (get_header_value scope client_ip_header ≡ some value)
            × IsHop strict (parse_xff value) ip)
    IsJustified ip xff_all_trusted =
        (is_trusted lib trusted (peer_of scope) ≡ true)
        × (strict ≡ false)
        × ((value : Text) × (get_header_value scope client_ip_header ≡ some value)
            × ((front chain : List Text) × IsKept value front chain
                × All (IsPassed lib trusted strict) chain
                × (ip ≡ or_else (head? chain) [])))

    -- An address that is returned is justified; an exception needs strict mode.
    abbrev pub Fits : Result StrictResolutionError (Text × Provenance) → Type 0
    Fits (raise err) = strict ≡ true
    Fits (ok (ip, provenance)) = IsJustified ip provenance

    abbrev FitsIfAny : Option (Result StrictResolutionError (Text × Provenance)) → Type 0
    FitsIfAny none = Unit
    FitsIfAny (some r) = Fits r

    or_else-Fits :
        (o : Option (Result StrictResolutionError (Text × Provenance)))
        (r : Result StrictResolutionError (Text × Provenance))
        → FitsIfAny o
        → Fits r
        → Fits (or_else o r)
    or_else-Fits none r h k = k
    or_else-Fits (some s) r h k = h

    module _ (known : is_trusted lib trusted (peer_of scope) ≡ true) where
      raise_or-Fits :
          (err : StrictResolutionError)
          → Fits (if strict then raise err else ok (peer_of scope, socket))
      raise_or-Fits err = elim (Bool-cases strict) [ inl s ↦ rw s refl | inr s ↦ rw s refl ]

      passed-Fits :
          (value : Text) (front chain : List Text)
          → get_header_value scope client_ip_header ≡ some value
          → IsKept value front chain
          → All (IsPassed lib trusted strict) chain
          → strict ≡ false
          → IsJustified (or_else (head? chain) []) xff_all_trusted
      passed-Fits value front chain sent whole through loose =
          (known, loose, (value, sent, (front, chain, whole, through, refl)))

      settle-Fits :
          (value : Text) (front chain : List Text) (r : Result StrictResolutionError (Option Text))
          → get_header_value scope client_ip_header ≡ some value
          → IsKept value front chain
          → Found lib trusted strict (reverse chain) r
          → Fits (settle lib trusted strict chain r)
      settle-Fits value front chain (raise err) sent whole f = f
      settle-Fits value front chain (ok none) sent whole f = elim (Bool-cases strict) [
        | inl s ↦ rw s refl
        | inr s ↦ rw s (
            rw s at (
              passed-Fits value front chain sent whole
                (rw (reverse-reverse chain) at (All-reverse _ (reverse chain) f)) s))
      ]
      settle-Fits value front chain (ok (some ip)) sent whole
            (near, far, split, passed, valid, stranger) =
          (
            known,
            (
              value,
              sent,
              record {
                far = front ++ reverse far;
                near = reverse near;
                split =
                    sym whole.0
                    ∙ ap (λ l. front ++ l) (reverse-split chain near far ip split)
                    ∙ sym (append_assoc front (reverse far) (ip ∷ reverse near));
                passed = All-reverse _ near passed;
                valid = valid;
                stranger = stranger;
              },
            ),
          )

      walk-Fits :
          (value : Text) (front chain : List Text)
          → get_header_value scope client_ip_header ≡ some value
          → IsKept value front chain
          → Fits
              (settle lib trusted strict chain (first_untrusted lib trusted strict (reverse chain)))
      walk-Fits value front chain sent whole =
          settle-Fits value front chain _ sent whole
            (first_untrusted-Found lib trusted strict (reverse chain))

      resolve_chain-Fits :
          (value : Text)
          → get_header_value scope client_ip_header ≡ some value
          → Fits (resolve_chain lib trusted max_hops strict (parse_xff value))
      unfolding resolve_chain
      resolve_chain-Fits value sent =
          let (front, whole) = last_hops-suffix max_hops (parse_xff value) in
          if_rule Fits (ltb max_hops (length (parse_xff value)))
            (elim (Bool-cases strict) [
              | inl s ↦ rw s refl
              | inr s ↦ rw s (rw s at (walk-Fits value front _ sent (whole, inr refl)))
            ])
            (walk-Fits value [] _ sent (refl, inl refl))

      from_forwarded-Fits : Fits (from_forwarded lib trusted scope client_ip_header max_hops strict)
      unfolding from_forwarded
      from_forwarded-Fits = elim (Option-cases (get_header_value scope client_ip_header)) [
        | inl missing ↦ rw (missing, from_forwarded) (raise_or-Fits no_forwarding_header)
        | inr (value, sent) ↦
            rw (sent, from_forwarded)
              (elim (List-cases (parse_xff value)) [
                | inl blank ↦ rw blank (raise_or-Fits empty_forwarding_header)
                | inr (first, others, e) ↦ rw e (rw e at (resolve_chain-Fits value sent))
              ])
      ]

      from_cdn-Fits :
          (o : Option Text) → cdn_header ≡ o → FitsIfAny (from_cdn lib trusted scope o strict)
      unfolding from_cdn
      from_cdn-Fits none e = tt
      from_cdn-Fits (some []) e = tt
      from_cdn-Fits (some (c ∷ name)) e = elim (Option-cases (get_header_value scope (c ∷ name))) [
        | inl missing ↦ rw (missing, from_cdn) tt
        | inr (value, sent) ↦ elim (Bool-cases (is_valid_ip lib (strip value))) [
          | inl valid ↦ rw (sent, from_cdn) (rw valid (known, e, (value, sent, refl), valid))
          | inr malformed ↦
              rw (sent, from_cdn)
                (rw malformed (elim (Bool-cases strict) [ inl s ↦ rw s refl | inr s ↦ rw s tt ]))
        ]
      ]

    -- An address that is returned with the tag `socket` is the peer. With any other tag the peer
    -- is trusted, and: the named CDN header holds the address, which is valid; or, for `xff`, the
    -- address stands in the forwarding header, is valid and not trusted, and every valid address
    -- behind it is trusted; or, for `xff-all-trusted`, the mode is not strict, every valid address
    -- among the hops that are looked at is trusted, and the address is the first of those hops. In
    -- strict mode every address behind that of `xff` is valid. An exception is raised in strict
    -- mode only.
    pub resolve_client_ip-Fits :
        Fits (resolve_client_ip lib trusted scope client_ip_header cdn_header max_hops strict)
    unfolding resolve_client_ip
    resolve_client_ip-Fits = elim (Bool-cases (is_trusted lib trusted (peer_of scope))) [
      | inr stranger ↦ rw (stranger, resolve_client_ip) refl
      | inl known ↦
          rw (known, resolve_client_ip)
            (or_else-Fits (from_cdn lib trusted scope cdn_header strict)
              (from_forwarded lib trusted scope client_ip_header max_hops strict)
              (from_cdn-Fits known cdn_header refl) (from_forwarded-Fits known))
    ]

  walk-forged :
      (front proxies : List Text) (real : Text)
      → All (λ hop. (is_valid_ip lib hop ≡ true) × (is_trusted lib trusted hop ≡ true)) proxies
      → is_valid_ip lib real ≡ true
      → is_trusted lib trusted real ≡ false
      → first_untrusted lib trusted false (reverse (front ++ real ∷ proxies)) ≡ ok (some real)
  unfolding first_untrusted
  walk-forged front proxies real through valid stranger =
      rw
        (
          reverse-append front (real ∷ proxies),
          append_assoc (reverse proxies) (real ∷ []) (reverse front),
          first_untrusted-append lib trusted false (reverse proxies) (real ∷ reverse front)
              (All-reverse _ proxies through),
        )
        (rw (valid, first_untrusted) (rw stranger refl))

  last_hops-forged :
      (n : ℕ) (forged proxies : List Text) (real : Text)
      → length proxies < n
      → (front : List Text) × (last_hops n (forged ++ real ∷ proxies) ≡ front ++ real ∷ proxies)
  last_hops-forged zero forged proxies real few = absurd (omega arith)
  last_hops-forged (suc n) forged proxies real few =
      let k = length (forged ++ real ∷ proxies) - suc n in
      (
        drop k forged,
        drop-append forged (real ∷ proxies) k
            (omega (arith, length-append forged (real ∷ proxies))),
      )

  resolve_chain-forged :
      (max_hops : ℕ) (forged proxies : List Text) (real : Text)
      → length proxies < max_hops
      → All (λ hop. (is_valid_ip lib hop ≡ true) × (is_trusted lib trusted hop ≡ true)) proxies
      → is_valid_ip lib real ≡ true
      → is_trusted lib trusted real ≡ false
      → resolve_chain lib trusted max_hops false (forged ++ real ∷ proxies) ≡ ok (real, xff)
  unfolding resolve_chain
  resolve_chain-forged max_hops forged proxies real few through valid stranger =
      let (front, kept) = last_hops-forged max_hops forged proxies real few in
      if_rule (λ r. r ≡ ok (real, xff)) (ltb max_hops (length (forged ++ real ∷ proxies)))
        (rw kept (rw (walk-forged front proxies real through valid stranger) refl))
        (rw (walk-forged forged proxies real through valid stranger) refl)

  -- Let the peer be trusted, no CDN header be set up, and the forwarding header end with an
  -- address that is valid and not trusted, followed by fewer than `max_hops` valid, trusted
  -- proxies. Outside strict mode that address is the client, whatever stands in front of it in
  -- the header's value.
  pub resolve_client_ip-forged :
      (scope : Scope) (client_ip_header value : Text) (max_hops : ℕ) (forged proxies : List Text)
      (real : Text)
      → is_trusted lib trusted (peer_of scope) ≡ true
      → get_header_value scope client_ip_header ≡ some value
      → parse_xff value ≡ forged ++ real ∷ proxies
      → length proxies < max_hops
      → All (λ hop. (is_valid_ip lib hop ≡ true) × (is_trusted lib trusted hop ≡ true)) proxies
      → is_valid_ip lib real ≡ true
      → is_trusted lib trusted real ≡ false
      → resolve_client_ip lib trusted scope client_ip_header none max_hops false ≡ ok (real, xff)
  unfolding resolve_client_ip from_forwarded
  resolve_client_ip-forged scope client_ip_header value max_hops forged proxies real known sent
        chain few through valid stranger =
      rw (known, resolve_client_ip)
        (elim (List-cases (parse_xff value)) [
          | inl blank ↦
              absurd (
                omega (arith, ap length (sym blank ∙ chain), length-append forged (real ∷ proxies)))
          | inr (first, others, e) ↦
              rw (sent, from_forwarded)
                (rw e (
                  rw (sym chain ∙ e) at
                    (resolve_chain-forged max_hops forged proxies real few through valid stranger)))
        ])
