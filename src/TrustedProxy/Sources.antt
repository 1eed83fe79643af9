-- ===== src/TrustedProxy/Sources.antt =====
-- `auto_detected_cidrs` and `TrustedProxyManager` of skrift/lib/trusted_proxy.py: the static
-- networks, the refreshed sources, and the snapshot that resolution reads.
use skrift.Prelude.{
  ℕ, zero, suc, ◌≡◌, refl, inl, inr, Bool, true, ◌||◌, Option, none, some, List, [], ◌∷◌, ◌++◌,
  arith, ℕ_beq, string_beq, if◌then◌else◌, Option-cases, List-cases, or_else, any,
}
use skrift.Prelude.Text.{Text, codes, strip}
use skrift.TrustedProxy.{IpLibrary, Network, normalize, in_network, is_trusted, from_strings}

pub record TrustConfig : Type 0 where
  pub explicit : Bool
  pub trust_private_networks : Option Bool
  pub trusted : List Text

abbrev pub private_networks : List Text
private_networks =
    codes "10.0.0.0/8" ∷ codes "172.16.0.0/12" ∷ codes "192.168.0.0/16" ∷ codes "fc00::/7" ∷ []

abbrev pub loopback_networks : List Text
loopback_networks = codes "127.0.0.0/8" ∷ codes "::1/128" ∷ []

-- What `detect_kubernetes` and `detect_docker` find is given.
unfoldable pub auto_detected_cidrs : TrustConfig → Bool → Bool → List Text
auto_detected_cidrs config is_k8s is_docker =
    if config.explicit
    then []
    else if or_else config.trust_private_networks (is_k8s || is_docker)
    then loopback_networks ++ private_networks
    else loopback_networks

pub record SourceState (N4 N6 : Type 0) : Type 0 where
  pub name : Text
  pub networks : List (Network N4 N6)

pub record TrustedProxyManager (N4 N6 : Type 0) : Type 0 where
  pub static_networks : List (Network N4 N6)
  pub sources : List (SourceState N4 N6)
  pub snapshot : List (Network N4 N6)

module _ {N4 N6 : Type 0} where
  abbrev pub source_networks : List (SourceState N4 N6) → List (Network N4 N6)
  source_networks [] = []
  source_networks (source ∷ sources) = source.networks ++ source_networks sources

  unfoldable pub rebuild_snapshot : TrustedProxyManager N4 N6 → TrustedProxyManager N4 N6
  rebuild_snapshot m = record m { snapshot = m.static_networks ++ source_networks m.sources }

  abbrev pub set_networks :
      ℕ → List (Network N4 N6) → List (SourceState N4 N6) → List (SourceState N4 N6)
  set_networks n networks [] = []
  set_networks zero networks (source ∷ sources) = record source { networks = networks } ∷ sources
  set_networks (suc n) networks (source ∷ sources) = source ∷ set_networks n networks sources

module _ {V4 V6 N4 N6 : Type 0} (lib : IpLibrary V4 V6 N4 N6) where
  unfoldable pub rebuild_static :
      TrustConfig → Bool → Bool → TrustedProxyManager N4 N6 → TrustedProxyManager N4 N6
  unfolding auto_detected_cidrs from_strings
  rebuild_static config is_k8s is_docker m = record m {
    static_networks =
        from_strings lib (auto_detected_cidrs config is_k8s is_docker ++ config.trusted);
  }

  -- `_refresh_source` of the source at a position, with what its body parses to, if it does.
  unfoldable pub refresh_source :
      TrustedProxyManager N4 N6 → ℕ × Option (List Text) → TrustedProxyManager N4 N6
  unfolding rebuild_snapshot from_strings
  refresh_source m (n, none) = m
  refresh_source m (n, some cidrs) = elim (from_strings lib cidrs) [
    | [] ↦ m
    | net ∷ networks ↦
        rebuild_snapshot (record m { sources = set_networks n (net ∷ networks) m.sources })
  ]

  unfoldable pub refresh_all :
      TrustedProxyManager N4 N6 → List (ℕ × Option (List Text)) → TrustedProxyManager N4 N6
  unfolding refresh_source
  refresh_all m [] = m
  refresh_all m (refresh ∷ refreshes) = refresh_all (refresh_source m refresh) refreshes

  any-append :
      (p : Network N4 N6 → Bool) (xs ys : List (Network N4 N6))
      → any p xs ≡ true
      → any p (xs ++ ys) ≡ true
  any-append p [] ys h = absurd (cc)
  any-append p (x ∷ xs) ys h = ground (arith, h, any-append p xs ys)

  is_trusted-append :
      (xs ys : List (Network N4 N6)) (ip : Text)
      → is_trusted lib xs ip ≡ true
      → is_trusted lib (xs ++ ys) ip ≡ true
  unfolding is_trusted
  is_trusted-append xs ys ip h = elim (Option-cases (lib.ip_address (strip ip))) [
    | inl malformed ↦ absurd (cc (rw (malformed, is_trusted) at h))
    | inr (addr, e) ↦
        rw (e, is_trusted)
          (any-append (in_network lib (normalize lib addr)) xs ys (rw (e, is_trusted) at h))
  ]

  -- The snapshot has the static networks and those of all sources, in that order.
  abbrev pub IsConsistent : TrustedProxyManager N4 N6 → Type 0
  IsConsistent m = m.snapshot ≡ m.static_networks ++ source_networks m.sources

  refresh_source-IsConsistent :
      (m : TrustedProxyManager N4 N6) (refresh : ℕ × Option (List Text))
      → IsConsistent m
      → IsConsistent (refresh_source m refresh)
        × ((refresh_source m refresh).static_networks ≡ m.static_networks)
  unfolding refresh_source
  refresh_source-IsConsistent m (n, none) c = (c, refl)
  refresh_source-IsConsistent m (n, some cidrs) c = elim (List-cases (from_strings lib cidrs)) [
    | inl empty ↦ rw (empty, refresh_source) (c, refl)
    | inr (net, networks, e) ↦ rw (e, refresh_source) (refl, refl)
  ]

  -- After any refreshes of sources, those that fail to parse or hold no network included, the
  -- snapshot is again the static networks with those of all sources, and an address that the
  -- static networks trust is trusted by the snapshot: no source can take that trust away.
  pub refresh_all-IsConsistent :
      (m : TrustedProxyManager N4 N6) (refreshes : List (ℕ × Option (List Text))) (ip : Text)
      → IsConsistent m
      → IsConsistent (refresh_all m refreshes)
        × (is_trusted lib m.static_networks ip ≡ true
            → is_trusted lib (refresh_all m refreshes).snapshot ip ≡ true)
  unfolding refresh_all
  refresh_all-IsConsistent m [] ip c =
      (c, λ h. rw c (is_trusted-append m.static_networks (source_networks m.sources) ip h))
  refresh_all-IsConsistent m (refresh ∷ refreshes) ip c =
      let (c', same) = refresh_source-IsConsistent m refresh c in
      let (c'', kept) = refresh_all-IsConsistent (refresh_source m refresh) refreshes ip c' in
      (c'', λ h. kept (rw same h))
