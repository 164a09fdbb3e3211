-- ===== src/Kv/Clist.antt =====
-- project-1/src/example.com/clist/clist.go: a list behind a lock, which makes each method one step.
-- `Iter` holds the lock until the whole list has been received, so a loop over it sees one list.
use dsystem_homework.Base.{
  ◌≡◌, refl, ap, inl, inr, List, [], ◌∷◌, ◌++◌, Option, some, none, if◌then◌else◌, Key, In, here,
  there, Bool-cases, false,
}

module _ {ℓ} {A : Type ℓ} ⦃key : Key A⦄ where
  abbrev pub new : List A
  new = []

  abbrev pub push_back : A → List A → List A
  push_back v items = items ++ v ∷ []

  abbrev pub hit : A → List A → Option A × List A → Option A × List A
  hit e rest (found, items) = (found, e ∷ items)

  -- The value that was removed and the list that is left.
  unfoldable pub remove : A → List A → Option A × List A
  remove v [] = (none, [])
  remove v (e ∷ items) =
      let rest = remove v items in if key.same e v then (some e, items) else hit e items rest

  not_in_grown :
      (v e : A) (front : List A) → key.same e v ≡ false → (In v front → ⊥) → In v (e ∷ front) → ⊥
  not_in_grown v e front miss out here = let self = (key.same_iff v v).1 refl in cc
  not_in_grown v e front miss out (there i) = out i

  later : (v e : A) (items : List A) → key.same e v ≡ false → In v (e ∷ items) → In v items
  later v e items miss here = let self = (key.same_iff v v).1 refl in cc
  later v e items miss (there i) = i

  -- Taking a value that is in the list out of it takes its first occurrence out and nothing else,
  -- and gives the value.
  pub remove_first :
      (v : A) (items : List A)
      → In v items
      → (front : List A) × (back : List A) × (items ≡ front ++ v ∷ back)
        × (remove v items ≡ (some v, front ++ back))
        × (In v front → ⊥)
  unfolding remove
  remove_first v [] i = elim i [ ]
  remove_first v (e ∷ items) i = elim (Bool-cases (key.same e v)) [
    | inl found ↦
        let same : e ≡ v = (key.same_iff e v).0 found in
        ([], items, ap (λ x. x ∷ items) same, rw (found, same) refl, λ j. elim j [ ])
    | inr miss ↦
        let (front, back, split, rest, out) = remove_first v items (later v e items miss i) in
        (e ∷ front, back, ap (◌∷◌ e) split, rw (miss, rest) refl, not_in_grown v e front miss out)
  ]
