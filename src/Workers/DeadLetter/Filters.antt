-- ===== src/Workers/DeadLetter/Filters.antt =====
-- What the arguments of `list` of the dead-letter store ask of an entry.
use skrift.Prelude.{
  ℕ, ◌≤◌, String, ◌≡◌, ◌↔◌, refl, ◌⊎◌, inl, inr, Bool, true, false, ◌&&◌, Option, none, some, List,
  [], ◌∷◌, arith, ◌==◌, ==_iff, ℕ_beq, string_beq, leb, leb→le, Bool-cases, any,
}
use skrift.Workers.DeadLetter.{
  DeadJobAttempt, DeadJobEntry, DeadLetterFilter, cause_text, state_text, admits, admits_time,
  select,
}

-- A text that a filter asks for; an empty one asks for nothing.
abbrev pub IsMet : Option String → (String → Type 0) → Type 0
IsMet none fits = Unit
IsMet (some s) fits = (s ≡ "") ⊎ fits s

abbrev pub IsMetTime : Option ℕ → (ℕ → Type 0) → Type 0
IsMetTime none fits = Unit
IsMetTime (some t) fits = fits t

and_iff :
    (a b : Bool) (Q R : Type 0) → ((a ≡ true) ↔ Q) → ((b ≡ true) ↔ R) → (a && b ≡ true) ↔ (Q × R)
and_iff true b Q R h k = ((λ e. (h.0 refl, k.0 e)), λ x. k.1 x.1)
and_iff false b Q R h k = ((λ e. absurd (cc)), λ x. absurd (cc (h.1 x.0)))

admits_iff :
    (o : Option String) (test : String → Bool) (fits : String → Type 0)
    → ((s : String) → (test s ≡ true) ↔ (fits s))
    → (admits o test ≡ true) ↔ (IsMet o fits)
admits_iff none test fits h = ((λ e. tt), λ x. refl)
admits_iff (some s) test fits h = elim (Bool-cases (s == "")) [
  | inl blank ↦ rw blank ((λ e. inl ((==_iff s "").0 blank)), λ x. refl)
  | inr written ↦ rw written (
    (λ e. inr ((h s).0 e)),
    λ x. elim x [ inl e ↦ absurd (cc ((==_iff s "").1 e, written)) | inr y ↦ (h s).1 y ],
  )
]

admits_time_iff :
    (o : Option ℕ) (test : ℕ → Bool) (fits : ℕ → Type 0)
    → ((t : ℕ) → (test t ≡ true) ↔ (fits t))
    → (admits_time o test ≡ true) ↔ (IsMetTime o fits)
admits_time_iff none test fits h = ((λ e. tt), λ x. refl)
admits_time_iff (some t) test fits h = h t

leb_iff : (a b : ℕ) → (leb a b ≡ true) ↔ (a ≤ b)
leb_iff a b = ((λ e. leb→le a b e), λ h. ground arith)

module _ {P : Type 0} where
  -- One of the attempts ended with an exception of this type.
  abbrev pub HasException : List (DeadJobAttempt P) → String → Type 0
  HasException [] s = ⊥
  HasException (a ∷ attempts) s = (a.exception_type ≡ s) ⊎ HasException attempts s

  -- What the seven arguments of `list` ask of an entry.
  abbrev pub IsSelected : DeadLetterFilter → DeadJobEntry P → Type 0
  IsSelected f entry =
      (((((IsMet f.queue (λ s. entry.queue ≡ s) × IsMet f.job_type (λ s. entry.job_type ≡ s))
              × IsMet f.cause (λ s. cause_text entry.cause ≡ s))
            × IsMet f.state (λ s. state_text entry.state ≡ s))
          × IsMet f.exception_type (λ s. HasException entry.attempts s))
        × IsMetTime f.created_after (λ t. t ≤ entry.created_at))
      × IsMetTime f.created_before (λ t. entry.created_at ≤ t)

  any_iff :
      (attempts : List (DeadJobAttempt P)) (s : String)
      → (any (λ a. a.exception_type == s) attempts ≡ true) ↔ (HasException attempts s)
  any_iff [] s = ((λ e. absurd (cc)), λ x. absurd x)
  any_iff (a ∷ attempts) s = elim (Bool-cases (a.exception_type == s)) [
    | inl same ↦ rw same ((λ e. inl ((==_iff a.exception_type s).0 same)), λ x. refl)
    | inr other ↦ rw other (
      (λ e. inr ((any_iff attempts s).0 e)),
      λ x. elim x [
        | inl e ↦ absurd (cc ((==_iff a.exception_type s).1 e, other))
        | inr y ↦ (any_iff attempts s).1 y
      ],
    )
  ]

  pub select_iff :
      (f : DeadLetterFilter) (entry : DeadJobEntry P)
      → (select f entry ≡ true) ↔ (IsSelected f entry)
  unfolding select
  select_iff f entry =
      let by_queue = admits_iff f.queue _ _ λ s. ==_iff entry.queue s in
      let by_type = admits_iff f.job_type _ _ λ s. ==_iff entry.job_type s in
      let by_cause = admits_iff f.cause _ _ λ s. ==_iff (cause_text entry.cause) s in
      let by_state = admits_iff f.state _ _ λ s. ==_iff (state_text entry.state) s in
      let by_exception = admits_iff f.exception_type _ _ λ s. any_iff entry.attempts s in
      let after = admits_time_iff f.created_after _ _ λ t. leb_iff t entry.created_at in
      let before = admits_time_iff f.created_before _ _ λ t. leb_iff entry.created_at t in
      let texts = and_iff _ _ _ _ (and_iff _ _ _ _ by_queue by_type) by_cause in
      let all_texts = and_iff _ _ _ _ (and_iff _ _ _ _ texts by_state) by_exception in
      and_iff _ _ _ _ (and_iff _ _ _ _ all_texts after) before
