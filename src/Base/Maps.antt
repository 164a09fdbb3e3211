-- ===== src/Base/Maps.antt =====
-- Go's maps as association lists; `range` walks the list, an order that Go leaves open.
use Prim.Native.Nat.{◌≤◌, ◌<◌}
use mathlib.Core.Path.{◌≡◌, refl}
use mathlib.Core.List.{List, [], ◌∷◌}
use mathlib.Core.Logic.{inl, inr}
use mathlib.Core.Option.{Option, none, some}
use native.Mathlib.Omega.{arith}
use dsystem_homework.Base.Tests.{if◌then◌else◌, Key, Bool-cases}
use dsystem_homework.Base.Lists.{length, All}

abbrev pub Dict {ℓ κ} : Type ℓ → Type κ → Type (ℓ ⊔ κ)
Dict K V = List (K × V)

module _ {ℓ κ} {K : Type ℓ} {V : Type κ} ⦃key : Key K⦄ where
  unfoldable pub lookup : K → Dict K V → Option V
  lookup k [] = none
  lookup k ((j, v) ∷ m) = if key.same j k then some v else lookup k m

  unfoldable pub insert : K → V → Dict K V → Dict K V
  insert k v [] = (k, v) ∷ []
  insert k v ((j, old) ∷ m) = if key.same j k then (k, v) ∷ m else (j, old) ∷ insert k v m

  unfoldable pub delete : K → Dict K V → Dict K V
  delete k [] = []
  delete k ((j, w) ∷ m) = if key.same j k then delete k m else (j, w) ∷ delete k m

  pub lookup_empty : (k : K) (m : Dict K V) → length m ≤ 0 → lookup k m ≡ none
  unfolding lookup
  lookup_empty k [] h = refl
  lookup_empty k (entry ∷ m) h = absurd (omega arith)

  -- Reading a map after a write and after a deletion.
  pub lookup-insert :
      (at k : K) (new : V) (m : Dict K V)
      → lookup k (insert at new m) ≡ (if key.same at k then some new else lookup k m)
  unfolding lookup insert
  lookup-insert at k new [] = refl
  lookup-insert at k new ((first, old) ∷ rest) = ground (
    arith,
    key.same_iff at k,
    key.same_iff first at,
    key.same_iff first k,
    lookup-insert at k new rest,
  )

  pub lookup-delete :
      (at k : K) (m : Dict K V)
      → lookup k (delete at m) ≡ (if key.same at k then none else lookup k m)
  unfolding lookup delete
  lookup-delete at k [] = ground arith
  lookup-delete at k ((first, old) ∷ rest) = ground (
    arith,
    key.same_iff at k,
    key.same_iff first at,
    key.same_iff first k,
    lookup-delete at k rest,
  )

  pub length-delete-le : (k : K) (m : Dict K V) → length (delete k m) ≤ length m
  unfolding delete
  length-delete-le k [] = omega arith
  length-delete-le k ((j, w) ∷ m) = ground (arith, length-delete-le k m)

  -- Deleting a key that is present makes the map smaller.
  pub length-delete-lt :
      (k : K) (m : Dict K V) (v : V) → lookup k m ≡ some v → length (delete k m) < length m
  unfolding lookup delete
  length-delete-lt k [] v h = cc
  length-delete-lt k ((j, w) ∷ m) v h = ground (arith, length-delete-le k m, length-delete-lt k m v)

  pub All-insert {ν} :
      (P : K × V → Type ν) (k : K) (v : V) (m : Dict K V)
      → P (k, v)
      → All P m
      → All P (insert k v m)
  unfolding insert
  All-insert P k v [] p h = (p, tt)
  All-insert P k v ((j, w) ∷ m) p h = elim (Bool-cases (key.same j k)) [
    | inl hit ↦ rw hit (p, h.1)
    | inr miss ↦ rw miss (h.0, All-insert P k v m p h.1)
  ]

  pub All-delete {ν} : (P : K × V → Type ν) (k : K) (m : Dict K V) → All P m → All P (delete k m)
  unfolding delete
  All-delete P k [] h = tt
  All-delete P k ((j, w) ∷ m) h = elim (Bool-cases (key.same j k)) [
    | inl hit ↦ rw hit (All-delete P k m h.1)
    | inr miss ↦ rw miss (h.0, All-delete P k m h.1)
  ]
