-- ===== src/Queues/Shape.antt =====
-- What the queues share: `.map(normalize).filter(Boolean)`, and the loop that parts a queue in two.
use mossbridge.Prelude.{
  any, ℕ, List, [], ◌∷◌, ◌++◌, Option, none, some, Bool, not, if◌then◌else◌, keep, length, map, All,
  ◌≡◌, refl, arith, inl, inr, Bool-cases, Order, sort_by, ltb, ◌==◌, Text, ◌&&◌, ◌||◌, insert_by,
  or_text, length-keep, trim, true, is_empty, false, ◌<◌,
}
use mathlib.Core.List.{Perm, perm_middle}
use mathlib.Core.List.Perm

abbrev pub push_some {ℓ} : {B : Type ℓ} → Option B → List B → List B
push_some none bs = bs
push_some (some b) bs = b ∷ bs

module _ {ℓ κ} {A : Type ℓ} {B : Type κ} where
  unfoldable pub normalize_all : (A → Option B) → List A → List B
  normalize_all f [] = []
  normalize_all f (a ∷ rest) = push_some (f a) (normalize_all f rest)

  -- A list whose entries are each read back as they were written is read back whole.
  pub normalize_all-map :
      (f : A → Option B) (g : B → A) (bs : List B)
      → All (λ b. f (g b) ≡ some b) bs
      → normalize_all f (map g bs) ≡ bs
  unfolding normalize_all
  normalize_all-map f g [] h = refl
  normalize_all-map f g (b ∷ bs) h = rw (h.0, normalize_all-map f g bs h.1)

  pub All-normalize_all {μ} :
      (P : B → Type μ) (f : A → Option B) (xs : List A)
      → ((a : A) (b : B) → f a ≡ some b → P b)
      → All P (normalize_all f xs)
  unfolding normalize_all
  All-normalize_all P f [] h = tt
  All-normalize_all P f (a ∷ rest) h = pushed (f a) refl (All-normalize_all P f rest h)
    where
      pushed :
          (o : Option B)
          → f a ≡ o
          → All P (normalize_all f rest)
          → All P (push_some o (normalize_all f rest))
      pushed none e r = r
      pushed (some b) e r = (h a b e, r)

module _ {ℓ} {A : Type ℓ} where
  -- The loop `if (p(x)) taken.push(x) else left.push(x)`.
  unfoldable pub part : (A → Bool) → List A → List A × List A
  part p [] = ([], [])
  part p (x ∷ xs) =
      let (taken, left) = part p xs in if p x then (x ∷ taken, left) else (taken, x ∷ left)

  pub part-keep : (p : A → Bool) (xs : List A) → part p xs ≡ (keep p xs, keep (λ x. not (p x)) xs)
  unfolding part
  part-keep p [] = refl
  part-keep p (x ∷ xs) = elim (Bool-cases (p x)) [
    | inl e ↦ rw (e, part-keep p xs)
    | inr e ↦ rw (e, part-keep p xs)
  ]

  -- The two parts together are the list.
  pub keep-perm : (p : A → Bool) (xs : List A) → Perm (keep p xs ++ keep (λ x. not (p x)) xs) xs
  keep-perm p [] = Perm.refl []
  keep-perm p (x ∷ xs) = elim (Bool-cases (p x)) [
    | inl e ↦ rw e (Perm.cons x (keep-perm p xs))
    | inr e ↦ rw e (
        Perm.trans (perm_middle (keep p xs) (keep (λ y. not (p y)) xs))
          (Perm.cons x (keep-perm p xs)))
  ]

  pub keep-keep-not : (p : A → Bool) (xs : List A) → keep p (keep (λ x. not (p x)) xs) ≡ []
  keep-keep-not p [] = refl
  keep-keep-not p (x ∷ xs) = ground (arith, keep-keep-not p xs)

  pub keep-not-none : (p : A → Bool) (xs : List A) → keep p xs ≡ [] → keep (λ x. not (p x)) xs ≡ xs
  keep-not-none p [] h = refl
  keep-not-none p (x ∷ xs) h = ground (arith, keep-not-none p xs)

-- The comparator "by time, then by id": `le_id` is `localeCompare` of the ids, at most 0.
unfoldable pub by_time {ℓ} :
    {A : Type ℓ} → (A → ℕ) → (A → Text) → (Text → Text → Bool) → A → A → Bool
by_time time id le_id a b = ltb (time a) (time b) || (time a == time b && le_id (id a) (id b))

module _ {ℓ} {A : Type ℓ} (time : A → ℕ) (id : A → Text) (le_id : Text → Text → Bool)
    (o : Order le_id) where
  pub by_time-order : Order (by_time time id le_id)
  unfolding by_time
  by_time-order = record {
    total = λ a b h. ground (arith, o.total (id a) (id b));
    trans = λ a b c h k. ground (arith, o.trans (id a) (id b) (id c));
  }

module _ {ℓ} {A : Type ℓ} where
  -- If no entry is dropped, the list is unchanged.
  pub keep_same_length :
      (p : A → Bool) (xs : List A) → length (keep p xs) ≡ length xs → keep p xs ≡ xs
  keep_same_length p [] h = refl
  keep_same_length p (x ∷ xs) h = elim (Bool-cases (p x)) [
    | inl e ↦ rw (e, keep_same_length p xs (omega (arith, rw e at h)))
    | inr e ↦ absurd (omega (arith, rw e at h, length-keep p xs))
  ]

  pub All-perm_insert {κ} :
      (P : A → Type κ) (le : A → A → Bool) (a : A) (xs : List A)
      → P a
      → All P xs
      → All P (insert_by le a xs)
  unfolding insert_by
  All-perm_insert P le a [] h k = (h, tt)
  All-perm_insert P le a (b ∷ xs) h k = elim (Bool-cases (le a b)) [
    | inl e ↦ rw e (h, k)
    | inr e ↦ rw e (k.0, All-perm_insert P le a xs h k.1)
  ]

  pub All-sort_by {κ} :
      (P : A → Type κ) (le : A → A → Bool) (xs : List A) → All P xs → All P (sort_by le xs)
  unfolding sort_by
  All-sort_by P le [] h = tt
  All-sort_by P le (x ∷ xs) h = All-perm_insert P le x (sort_by le xs) h.0 (All-sort_by P le xs h.1)

-- A default text that is trimmed and not empty stands in for the empty text only.
pub or_text-default :
    (t d : Text)
    → trim t ≡ t
    → trim d ≡ d
    → (trim (or_text t d) ≡ or_text t d) × (or_text (or_text t d) d ≡ or_text t d)
unfolding or_text
or_text-default [] [] h k = (k, refl)
or_text-default [] (c ∷ d) h k = (k, refl)
or_text-default (c ∷ t) d h k = (h, refl)

-- A text with a default that is not empty keeps its value when it is read with another default.
pub or_text_kept :
    (t d e : Text)
    → trim t ≡ t
    → trim d ≡ d
    → is_empty d ≡ false
    → or_text (trim (or_text t d)) e ≡ or_text t d
unfolding or_text is_empty
or_text_kept [] [] e h k n = absurd (cc n)
or_text_kept [] (c ∷ d) e h k n = rw k refl
or_text_kept (c ∷ t) d e h k n = rw h refl

module _ {ℓ} {A : Type ℓ} where
  pub All-keep_if {κ} :
      (P : A → Type κ) (p : A → Bool) (xs : List A)
      → ((x : A) → p x ≡ true → P x)
      → All P (keep p xs)
  All-keep_if P p [] h = tt
  All-keep_if P p (x ∷ xs) h = elim (Bool-cases (p x)) [
    | inl e ↦ rw e (h x e, All-keep_if P p xs h)
    | inr e ↦ rw e (All-keep_if P p xs h)
  ]

  -- Taking out at least one entry makes the list shorter.
  pub length-keep_taken :
      (p : A → Bool) (xs : List A) → any p xs ≡ true → length (keep (λ x. not (p x)) xs) < length xs
  length-keep_taken p [] h = absurd (cc h)
  length-keep_taken p (x ∷ xs) h = elim (Bool-cases (p x)) [
    | inl e ↦ rw e (omega (arith, length-keep (λ y. not (p y)) xs))
    | inr e ↦ rw e (omega (arith, length-keep_taken p xs (cc (rw e at h))))
  ]
