-- ===== src/TrustedProxy/Walk.antt =====
-- The walk over the hops of the forwarding header.
use skrift.Prelude.{
  ℕ, zero, suc, ◌-◌, ◌≡◌, refl, ap, inl, inr, Bool, true, false, Option, none, some, List, [], ◌∷◌,
  ◌++◌, ℕ_beq, string_beq, if◌then◌else◌, Bool-cases, Result, ok, raise, length, take, All,
  take-append-drop,
}
use skrift.Prelude.Text.{Text}
use skrift.TrustedProxy.{
  IpLibrary, Network, StrictResolutionError, malformed_hop, is_trusted, is_valid_ip,
  first_untrusted, last_hops,
}

-- `last_hops` keeps an end of the chain.
pub last_hops-suffix :
    (n : ℕ) (chain : List Text) → (front : List Text) × (front ++ last_hops n chain ≡ chain)
last_hops-suffix zero chain = ([], refl)
last_hops-suffix (suc n) chain = (take (length chain - suc n) chain, take-append-drop _ chain)

module _ {V4 V6 N4 N6 : Type 0} (lib : IpLibrary V4 V6 N4 N6) (trusted : List (Network N4 N6)) where
  -- A hop that the walk passes: a valid one is trusted, and in strict mode it is valid.
  abbrev pub IsPassed : Bool → Text → Type 0
  IsPassed strict hop =
      (strict ≡ true → is_valid_ip lib hop ≡ true)
      × (is_valid_ip lib hop ≡ true → is_trusted lib trusted hop ≡ true)

  -- What the walk finds is valid, not trusted, and behind nothing but passed hops.
  abbrev pub Found : Bool → List Text → Result StrictResolutionError (Option Text) → Type 0
  Found strict hops (raise err) = strict ≡ true
  Found strict hops (ok none) = All (IsPassed strict) hops
  Found strict hops (ok (some addr)) =
      (near far : List Text) × (hops ≡ near ++ addr ∷ far)
      × All (IsPassed strict) near
      × (is_valid_ip lib addr ≡ true)
      × (is_trusted lib trusted addr ≡ false)

  Found-cons :
      (strict : Bool) (hop : Text) (hops : List Text)
      (r : Result StrictResolutionError (Option Text))
      → IsPassed strict hop
      → Found strict hops r
      → Found strict (hop ∷ hops) r
  Found-cons strict hop hops (raise err) h f = f
  Found-cons strict hop hops (ok none) h f = (h, f)
  Found-cons strict hop hops (ok (some addr)) h (near, far, split, passed, valid, stranger) =
      (hop ∷ near, far, ap (λ l. hop ∷ l) split, (h, passed), valid, stranger)

  passes_malformed :
      (strict : Bool) (hop : Text) (hops : List Text)
      → is_valid_ip lib hop ≡ false
      → Found strict hops (first_untrusted lib trusted strict hops)
      → Found strict
          (hop ∷ hops)
          (if strict then raise malformed_hop else first_untrusted lib trusted strict hops)
  passes_malformed true hop hops malformed rest = refl
  passes_malformed false hop hops malformed rest =
      Found-cons false hop hops _ ((λ s. absurd (cc)), (λ v. absurd (cc))) rest

  pub first_untrusted-Found :
      (strict : Bool) (hops : List Text)
      → Found strict hops (first_untrusted lib trusted strict hops)
  unfolding first_untrusted
  first_untrusted-Found strict [] = tt
  first_untrusted-Found strict (hop ∷ hops) =
      let rest = first_untrusted-Found strict hops in
      elim (Bool-cases (is_valid_ip lib hop)) [
        | inr malformed ↦
            rw (malformed, first_untrusted) (passes_malformed strict hop hops malformed rest)
        | inl valid ↦ elim (Bool-cases (is_trusted lib trusted hop)) [
          | inl known ↦
              rw (valid, first_untrusted)
                (rw known (Found-cons strict hop hops _ ((λ s. valid), (λ v. known)) rest))
          | inr stranger ↦
              rw (valid, first_untrusted) (rw stranger ([], hops, refl, tt, valid, stranger))
        ]
      ]

  -- The walk goes past valid, trusted hops.
  pub first_untrusted-append :
      (strict : Bool) (near hops : List Text)
      → All (λ hop. (is_valid_ip lib hop ≡ true) × (is_trusted lib trusted hop ≡ true)) near
      → first_untrusted lib trusted strict (near ++ hops) ≡ first_untrusted lib trusted strict hops
  unfolding first_untrusted
  first_untrusted-append strict [] hops h = refl
  first_untrusted-append strict (hop ∷ near) hops h =
      rw (h.0.0, first_untrusted) (rw h.0.1 (first_untrusted-append strict near hops h.1))
