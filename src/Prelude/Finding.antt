-- ===== src/Prelude/Finding.antt =====
-- `findIndex` and a search from the end, with what stands before and after the entry that is found.
use mathlib.Core.Path.{◌≡◌, refl, ap, subst}
use mathlib.Core.Logic.{inl, inr, ◌⊎◌}
use mathlib.Core.Bool.{Bool, true, false}
use mathlib.Core.Option.{Option, none, some}
use mathlib.Core.List.{List, [], ◌∷◌, ◌++◌}
use native.Mathlib.Omega.{arith}
use mossbridge.Prelude.Tests.{if◌then◌else◌, Bool-cases}
use mossbridge.Prelude.Lists.{any}

pub record Found {ℓ} (A : Type ℓ) : Type ℓ where
  pub before : List A
  pub entry : A
  pub after : List A

module _ {ℓ} {A : Type ℓ} where
  abbrev pub push_before : A → Option (Found A) → Option (Found A)
  push_before x none = none
  push_before x (some f) = some (record f { before = x ∷ f.before })

  abbrev pub found_here : Bool → A → List A → Option (Found A)
  found_here true x xs = some (record { before = []; entry = x; after = xs })
  found_here false x xs = none

  -- The one found later, or else the one here.
  abbrev pub later_or : Option (Found A) → A → Option (Found A) → Option (Found A)
  later_or none x h = h
  later_or (some f) x h = some (record f { before = x ∷ f.before })

  unfoldable pub split_last : (A → Bool) → List A → Option (Found A)
  split_last p [] = none
  split_last p (x ∷ xs) = later_or (split_last p xs) x (found_here (p x) x xs)

  unfoldable pub split_first : (A → Bool) → List A → Option (Found A)
  split_first p [] = none
  split_first p (x ∷ xs) =
      let later = push_before x (split_first p xs) in
      if p x then some (record { before = []; entry = x; after = xs }) else later

  -- The list with the entry that was found replaced, or taken out.
  abbrev pub replaced : Found A → A → List A
  replaced f x = f.before ++ x ∷ f.after

  abbrev pub taken_out : Found A → List A
  taken_out f = f.before ++ f.after

module _ {ℓ} {A : Type ℓ} where
  pub split_last-none : (p : A → Bool) (xs : List A) → any p xs ≡ false → split_last p xs ≡ none
  unfolding split_last
  split_last-none p [] h = refl
  split_last-none p (x ∷ xs) h = ground (arith, split_last-none p xs)

  pub split_last_here :
      (p : A → Bool) (xs : List A) (x : A) (ys : List A)
      → p x ≡ true
      → any p ys ≡ false
      → split_last p (xs ++ x ∷ ys) ≡ some (record { before = xs; entry = x; after = ys })
  unfolding split_last
  split_last_here p [] x ys h k = rw (split_last-none p ys k, h)
  split_last_here p (z ∷ xs) x ys h k = rw (split_last_here p xs x ys h k)

  pub split_first-none : (p : A → Bool) (xs : List A) → any p xs ≡ false → split_first p xs ≡ none
  unfolding split_first
  split_first-none p [] h = refl
  split_first-none p (x ∷ xs) h = ground (arith, split_first-none p xs)

  pub split_first_here :
      (p : A → Bool) (xs : List A) (x : A) (ys : List A)
      → p x ≡ true
      → any p xs ≡ false
      → split_first p (xs ++ x ∷ ys) ≡ some (record { before = xs; entry = x; after = ys })
  unfolding split_first
  split_first_here p [] x ys h k = rw h
  split_first_here p (z ∷ xs) x ys h k = ground (arith, split_first_here p xs x ys h)

  -- The last entry that passes, at its place in the list.
  pub record IsLast (p : A → Bool) (xs : List A) (f : Found A) : Type ℓ where
    pub place : xs ≡ f.before ++ f.entry ∷ f.after
    pub passes : p f.entry ≡ true
    pub none_after : any p f.after ≡ false

  abbrev pub SplitLast : (A → Bool) → List A → Type ℓ
  SplitLast p xs =
      ((split_last p xs ≡ none) × (any p xs ≡ false))
      ⊎ ((f : Found A) × (split_last p xs ≡ some f) × IsLast p xs f)

  pub SplitLast-cases : (p : A → Bool) (xs : List A) → SplitLast p xs
  unfolding split_last
  SplitLast-cases p [] = inl (refl, refl)
  SplitLast-cases p (x ∷ xs) = elim (SplitLast-cases p xs) [
    | inr (g, q, l) ↦ inr (
      record g { before = x ∷ g.before },
      rw q,
      record { place = ap (λ t. x ∷ t) l.place; passes = l.passes; none_after = l.none_after },
    )
    | inl (q, n) ↦ elim (Bool-cases (p x)) [
      | inl h ↦ inr (
        record { before = []; entry = x; after = xs },
        rw (q, h),
        record { place = refl; passes = h; none_after = n },
      )
      | inr h ↦ inl (rw (q, h), rw (h, n))
    ]
  ]

  -- What a search from the end returns is the last entry that passes.
  pub split_last-IsLast :
      (p : A → Bool) (xs : List A) (f : Found A) → split_last p xs ≡ some f → IsLast p xs f
  split_last-IsLast p xs f h = elim (SplitLast-cases p xs) [
    | inl (n, _) ↦ absurd (cc (n, h))
    | inr (g, e, l) ↦ subst (IsLast p xs) (cc (e, h)) l
  ]

module _ {ℓ} {A : Type ℓ} where
  pushed_place :
      (x : A) (o : Option (Found A)) (f : Found A)
      → push_before x o ≡ some f
      → (xs : List A) → ((g : Found A) → o ≡ some g → (xs ≡ replaced g g.entry))
      → x ∷ xs ≡ replaced f f.entry
  pushed_place x none f h xs k = absurd (cc h)
  pushed_place x (some g) f h xs k =
      let q : record g { before = x ∷ g.before } ≡ f = cc h in
      subst (λ (y : Found A). x ∷ xs ≡ replaced y y.entry) q
        (ap (λ (ys : List A). x ∷ ys) (k g refl))

  -- What is found first stands in the list.
  pub split_first-place :
      (p : A → Bool) (xs : List A) (f : Found A)
      → split_first p xs ≡ some f
      → xs ≡ replaced f f.entry
  unfolding split_first
  split_first-place p [] f h = absurd (cc h)
  split_first-place p (x ∷ xs) f h = elim (Bool-cases (p x)) [
    | inl e ↦
        let q : record { before = []; entry = x; after = xs } ≡ f = cc (rw e at h) in
        subst (λ (y : Found A). x ∷ xs ≡ replaced y y.entry) q refl
    | inr e ↦ pushed_place x (split_first p xs) f (rw e at h) xs (split_first-place p xs)
  ]

  pub split_first-any : (p : A → Bool) (xs : List A) → split_first p xs ≡ none → any p xs ≡ false
  unfolding split_first
  split_first-any p [] h = refl
  split_first-any p (x ∷ xs) h = elim (Bool-cases (p x)) [
    | inl e ↦ absurd (cc (rw e at h))
    | inr e ↦ rw e (split_first-any p xs (pushed_none (split_first p xs) (rw e at h)))
  ]
    where
      pushed_none : (o : Option (Found A)) → push_before x o ≡ none → o ≡ none
      pushed_none none k = refl
      pushed_none (some g) k = absurd (cc k)
