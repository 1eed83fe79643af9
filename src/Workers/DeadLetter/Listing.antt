-- ===== src/Workers/DeadLetter/Listing.antt =====
-- What `list` of the dead-letter store returns.
use skrift.Workers.DeadLetter.Filters.{IsSelected, select_iff}
use skrift.Prelude.{
  true, ◌↔◌, ℕ, ◌≤◌, String, ◌≡◌, refl, ◌∙◌, inl, inr, List, [], ◌∷◌, arith, ℕ_beq, string_beq, leb,
  eqb, leb→le, leb→lt, Bool-cases, filter, All, if_rule,
}
use skrift.Prelude.Dict
use skrift.Prelude.Dict.{Dict}
use skrift.Workers.DeadLetter.{
  DeadJobEntry, DeadLetterFilter, select, insert_newest, sort_newest, list_entries,
}

module _ {P : Type 0} where
  -- Newest first.
  abbrev pub IsNewestFirst : List (DeadJobEntry P) → Type 0
  IsNewestFirst [] = Unit
  IsNewestFirst (x ∷ xs) = All (λ y. y.created_at ≤ x.created_at) xs × IsNewestFirst xs

  -- The entries of one time.
  abbrev pub of_time : ℕ → List (DeadJobEntry P) → List (DeadJobEntry P)
  of_time t entries = filter (λ entry. eqb entry.created_at t) entries

  All-below :
      (b c : ℕ) (xs : List (DeadJobEntry P))
      → b ≤ c
      → All (λ y. y.created_at ≤ b) xs
      → All (λ y. y.created_at ≤ c) xs
  All-below b c [] h a = tt
  All-below b c (x ∷ xs) h a = (omega (arith, h, a.0), All-below b c xs h a.1)

  insert_newest-below :
      (b : ℕ) (entry : DeadJobEntry P) (xs : List (DeadJobEntry P))
      → entry.created_at ≤ b
      → All (λ y. y.created_at ≤ b) xs
      → All (λ y. y.created_at ≤ b) (insert_newest entry xs)
  unfolding insert_newest
  insert_newest-below b entry [] h a = (h, tt)
  insert_newest-below b entry (x ∷ xs) h a =
      if_rule (All (λ y. y.created_at ≤ b)) (leb x.created_at entry.created_at) (h, a)
        (a.0, insert_newest-below b entry xs h a.1)

  insert_newest-IsNewestFirst :
      (entry : DeadJobEntry P) (xs : List (DeadJobEntry P))
      → IsNewestFirst xs
      → IsNewestFirst (insert_newest entry xs)
  unfolding insert_newest
  insert_newest-IsNewestFirst entry [] s = (tt, tt)
  insert_newest-IsNewestFirst entry (x ∷ xs) s =
      elim (Bool-cases (leb x.created_at entry.created_at)) [
        | inl older ↦
            let h = leb→le x.created_at entry.created_at older in
            rw older ((h, All-below x.created_at entry.created_at xs h s.0), s)
        | inr newer ↦
            let h = leb→lt x.created_at entry.created_at newer in
            rw newer (
              insert_newest-below x.created_at entry xs (omega (arith, h)) s.0,
              insert_newest-IsNewestFirst entry xs s.1,
            )
      ]

  of_time-insert_newest :
      (t : ℕ) (entry : DeadJobEntry P) (xs : List (DeadJobEntry P))
      → of_time t (insert_newest entry xs) ≡ of_time t (entry ∷ xs)
  unfolding insert_newest
  of_time-insert_newest t entry [] = refl
  of_time-insert_newest t entry (x ∷ xs) = ground (arith, of_time-insert_newest t entry xs)

  sort_newest-lem :
      (xs : List (DeadJobEntry P))
      → IsNewestFirst (sort_newest xs) × ((t : ℕ) → of_time t (sort_newest xs) ≡ of_time t xs)
  unfolding sort_newest
  sort_newest-lem [] = (tt, λ t. refl)
  sort_newest-lem (entry ∷ xs) =
      let (sorted, same) = sort_newest-lem xs in
      (
        insert_newest-IsNewestFirst entry (sort_newest xs) sorted,
        λ t. of_time-insert_newest t entry (sort_newest xs) ∙ ground (arith, same t),
      )

  -- `list` returns entries newest first, those of one time in the order in which they were
  -- stored, and of each time exactly the stored entries that `select` keeps. These are the entries
  -- whose queue, job type, cause and state are the texts asked for, one of whose attempts ended
  -- with the exception type asked for, and whose creation is not before `created_after` and not
  -- after `created_before`, where a missing argument or an empty text asks for nothing.
  pub list_entries_lem :
      (entries : Dict String (DeadJobEntry P)) (f : DeadLetterFilter)
      → IsNewestFirst (list_entries entries f)
        × ((t : ℕ)
            → of_time t (list_entries entries f)
              ≡ of_time t (filter (select f) (Dict.values entries)))
        × ((entry : DeadJobEntry P) → (select f entry ≡ true) ↔ IsSelected f entry)
  unfolding list_entries
  list_entries_lem entries f =
      let (sorted, same) = sort_newest-lem (filter (select f) (Dict.values entries)) in
      (sorted, same, select_iff f)
