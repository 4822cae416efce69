-- ===== src/Prelude/Sorting.antt =====
-- `Array.prototype.sort` with a comparator: a stable sort, written as insertion from the right.
use mathlib.Core.Path.{◌≡◌, refl}
use mathlib.Core.Logic.{inl, inr}
use mathlib.Core.Bool.{Bool, true, false}
use mathlib.Core.List.{List, [], ◌∷◌, Perm}
use mathlib.Core.List.Perm
use mossbridge.Prelude.Tests.{if◌then◌else◌, Bool-cases}
use mossbridge.Prelude.Lists.{All, All-keep, keep}

-- `le a b` says that the comparator does not put `b` before `a`.
pub record Order {ℓ} {A : Type ℓ} (le : A → A → Bool) : Type ℓ where
  pub total : (a b : A) → le a b ≡ false → le b a ≡ true
  pub trans : (a b c : A) → le a b ≡ true → le b c ≡ true → le a c ≡ true

module _ {ℓ} {A : Type ℓ} (le : A → A → Bool) where
  unfoldable pub insert_by : A → List A → List A
  insert_by a [] = a ∷ []
  insert_by a (b ∷ xs) = if le a b then a ∷ b ∷ xs else b ∷ insert_by a xs

  unfoldable pub sort_by : List A → List A
  sort_by [] = []
  sort_by (a ∷ xs) = insert_by a (sort_by xs)

  abbrev pub IsSorted : List A → Type ℓ
  IsSorted [] = Unit
  IsSorted (a ∷ xs) = All (λ b. le a b ≡ true) xs × IsSorted xs

module _ {ℓ} {A : Type ℓ} (le : A → A → Bool) where
  pub insert_by-perm : (a : A) (xs : List A) → Perm (insert_by le a xs) (a ∷ xs)
  unfolding insert_by
  insert_by-perm a [] = Perm.refl (a ∷ [])
  insert_by-perm a (b ∷ xs) = elim (Bool-cases (le a b)) [
    | inl e ↦ rw e (Perm.refl (a ∷ b ∷ xs))
    | inr e ↦ rw e (Perm.trans (Perm.cons b (insert_by-perm a xs)) (Perm.swap a b xs))
  ]

  pub sort_by-perm : (xs : List A) → Perm (sort_by le xs) xs
  unfolding sort_by
  sort_by-perm [] = Perm.refl []
  sort_by-perm (a ∷ xs) =
      Perm.trans (insert_by-perm a (sort_by le xs)) (Perm.cons a (sort_by-perm xs))

  All-insert_by {κ} :
      (P : A → Type κ) (a : A) (xs : List A) → P a → All P xs → All P (insert_by le a xs)
  unfolding insert_by
  All-insert_by P a [] h k = (h, tt)
  All-insert_by P a (b ∷ xs) h k = elim (Bool-cases (le a b)) [
    | inl e ↦ rw e (h, k)
    | inr e ↦ rw e (k.0, All-insert_by P a xs h k.1)
  ]

  pub filter-IsSorted : (p : A → Bool) (xs : List A) → IsSorted le xs → IsSorted le (keep p xs)
  filter-IsSorted p [] h = tt
  filter-IsSorted p (x ∷ xs) h = elim (Bool-cases (p x)) [
    | inl e ↦ rw e (All-keep (λ b. le x b ≡ true) p xs h.0, filter-IsSorted p xs h.1)
    | inr e ↦ rw e (filter-IsSorted p xs h.1)
  ]

  -- A sorted list is left as it is, whatever the comparator.
  pub sort_by_fixed : (xs : List A) → IsSorted le xs → sort_by le xs ≡ xs
  unfolding sort_by insert_by
  sort_by_fixed [] h = refl
  sort_by_fixed (a ∷ []) h = refl
  sort_by_fixed (a ∷ b ∷ xs) h = rw (sort_by_fixed (b ∷ xs) h.1, h.0.0)

module _ {ℓ} {A : Type ℓ} (le : A → A → Bool) (o : Order le) where
  above :
      (a b : A) (xs : List A)
      → le a b ≡ true
      → All (λ c. le b c ≡ true) xs
      → All (λ c. le a c ≡ true) xs
  above a b [] h k = tt
  above a b (c ∷ xs) h k = (o.trans a b c h k.0, above a b xs h k.1)

  pub insert_by-IsSorted : (a : A) (xs : List A) → IsSorted le xs → IsSorted le (insert_by le a xs)
  unfolding insert_by
  insert_by-IsSorted a [] h = (tt, tt)
  insert_by-IsSorted a (b ∷ xs) h = elim (Bool-cases (le a b)) [
    | inl e ↦ rw e ((e, above a b xs e h.0), h)
    | inr e ↦ rw e (
      All-insert_by le (λ c. le b c ≡ true) a xs (o.total a b e) h.0,
      insert_by-IsSorted a xs h.1,
    )
  ]

  pub sort_by-IsSorted : (xs : List A) → IsSorted le (sort_by le xs)
  unfolding sort_by
  sort_by-IsSorted [] = tt
  sort_by-IsSorted (a ∷ xs) = insert_by-IsSorted a (sort_by le xs) (sort_by-IsSorted xs)
