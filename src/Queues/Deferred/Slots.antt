-- ===== src/Queues/Deferred/Slots.antt =====
-- A slot of the store of deferred replies is what a new reply is merged in: at most one reply is in each.
use mossbridge.Prelude.{
  ℕ, eq_text_iff, is_empty, List, [], ◌∷◌, ◌++◌, Bool, true, false, ◌≡◌, refl, sym, ap, ◌∙◌, inl,
  inr, Bool-cases, arith, keep, keep_none, keep-append, length, length-append, any, All, ◌≤◌, ◌+◌,
  Found, replaced, sort_by, insert_by,
}
use mossbridge.Queues.Deferred.{Kind, Reply, merged, same_slot, same_kind}
use mossbridge.Queues.Deferred.Fields.{IsNormal}

abbrev pub count {ℓ} : {A : Type ℓ} → (A → Bool) → List A → ℕ
count p xs = length (keep p xs)

module _ {ℓ} {A : Type ℓ} (p : A → Bool) where
  count-insert_by :
      (le : A → A → Bool) (a : A) (xs : List A) → count p (insert_by le a xs) ≡ count p (a ∷ xs)
  unfolding insert_by
  count-insert_by le a [] = refl
  count-insert_by le a (x ∷ xs) = ground (arith, count-insert_by le a xs)

  pub count-sort_by : (le : A → A → Bool) (xs : List A) → count p (sort_by le xs) ≡ count p xs
  unfolding sort_by
  count-sort_by le [] = refl
  count-sort_by le (x ∷ xs) =
      count-insert_by le x (sort_by le xs) ∙ ground (arith, count-sort_by le xs)

  count-append : (xs ys : List A) → count p (xs ++ ys) ≡ count p xs + count p ys
  count-append xs ys = ap length (keep-append p xs ys) ∙ length-append (keep p xs) (keep p ys)

  count_same : (q : A → Bool) (xs : List A) → ((x : A) → p x ≡ q x) → count p xs ≡ count q xs
  count_same q [] h = refl
  count_same q (x ∷ xs) h = ground (arith, count_same q xs h, h x)

count_head {ℓ} :
    {A : Type ℓ} (p : A → Bool) (x y : A) (ys : List A)
    → p x ≡ p y
    → count p (x ∷ ys) ≡ count p (y ∷ ys)
count_head p x y ys h = elim (Bool-cases (p y)) [ inl e ↦ rw (h, e) refl | inr e ↦ rw (h, e) refl ]

-- No two replies that a new one would be merged with are in the list.
pub record IsSingle (rs : List Reply) : Type 0 where
  pub at_most_one : (k : Reply) → is_empty k.dedupe_key ≡ false → count (same_slot k) rs ≤ 1

same_kind_iff : (a b : Kind) → same_kind a b ≡ true → a ≡ b
unfolding same_kind
same_kind_iff Kind.system_reply Kind.system_reply h = refl
same_kind_iff Kind.plain_reply Kind.plain_reply h = refl
same_kind_iff Kind.system_reply Kind.plain_reply h = absurd (cc h)
same_kind_iff Kind.plain_reply Kind.system_reply h = absurd (cc h)

record SameFields (k r : Reply) : Type 0 where
  account : r.account_id ≡ k.account_id
  sender : r.sender_id ≡ k.sender_id
  thread : r.thread_id ≡ k.thread_id
  kind : r.kind ≡ k.kind
  key : r.dedupe_key ≡ k.dedupe_key

slot_fields : (k r : Reply) → same_slot k r ≡ true → SameFields k r
unfolding same_slot
slot_fields k r h = record {
  account = (eq_text_iff r.account_id k.account_id).0 (ground arith);
  sender = (eq_text_iff r.sender_id k.sender_id).0 (ground arith);
  thread = (eq_text_iff r.thread_id k.thread_id).0 (ground arith);
  kind = same_kind_iff r.kind k.kind (ground arith);
  key = (eq_text_iff r.dedupe_key k.dedupe_key).0 (ground arith);
}

slot_shared : (k r : Reply) → SameFields k r → (x : Reply) → same_slot k x ≡ same_slot r x
unfolding same_slot
slot_shared k r f x = rw (f.account, f.sender, f.thread, f.kind, f.key) refl

merged_slot : (k e r : Reply) → same_slot k (merged e r) ≡ same_slot k e
unfolding same_slot merged
merged_slot k e r = refl

-- A reply that nothing is in the slot of.
pub added-IsSingle :
    (rs : List Reply) (r : Reply)
    → IsSingle rs
    → (is_empty r.dedupe_key ≡ false → any (same_slot r) rs ≡ false)
    → IsSingle (rs ++ r ∷ [])
added-IsSingle rs r v h = record { at_most_one = one }
  where
    one : (k : Reply) → is_empty k.dedupe_key ≡ false → count (same_slot k) (rs ++ r ∷ []) ≤ 1
    one k n = elim (Bool-cases (same_slot k r)) [
      | inl e ↦
          let f = slot_fields k r e in
          let z : count (same_slot k) rs ≡ 0 =
            count_same (same_slot k) (same_slot r) rs (slot_shared k r f)
            ∙ ap length (keep_none (same_slot r) rs (h (rw f.key n))) in
          rw (count-append (same_slot k) rs (r ∷ []), z, e) (omega arith)
      | inr e ↦ rw (count-append (same_slot k) rs (r ∷ []), e) (omega (arith, v.at_most_one k n))
    ]

pub replaced-IsSingle :
    (f : Found Reply) (r : Reply)
    → IsSingle (replaced f f.entry)
    → IsSingle (replaced f (merged f.entry r))
replaced-IsSingle f r v = record { at_most_one = one }
  where
    same :
        (k : Reply)
        → count (same_slot k) (replaced f (merged f.entry r))
          ≡ count (same_slot k) (replaced f f.entry)
    same k =
        count-append (same_slot k) f.before (merged f.entry r ∷ f.after)
        ∙ ap (λ n. count (same_slot k) f.before + n)
            (count_head (same_slot k) (merged f.entry r) f.entry f.after (merged_slot k f.entry r))
        ∙ sym (count-append (same_slot k) f.before (f.entry ∷ f.after))

    one :
        (k : Reply)
        → is_empty k.dedupe_key ≡ false
        → count (same_slot k) (replaced f (merged f.entry r)) ≤ 1
    one k n = rw (same k) (v.at_most_one k n)

pub All-replaced :
    (f : Found Reply) (x : Reply)
    → IsNormal x
    → All IsNormal (replaced f f.entry)
    → All IsNormal (replaced f x)
All-replaced f x n h = go f.before h
  where
    go :
        (bs : List Reply)
        → All IsNormal (bs ++ f.entry ∷ f.after)
        → All IsNormal (bs ++ x ∷ f.after)
    go [] k = (n, k.1)
    go (b ∷ bs) k = (k.0, go bs k.1)

pub All-entry : (f : Found Reply) → All IsNormal (replaced f f.entry) → IsNormal f.entry
All-entry f h = go f.before h
  where
    go : (bs : List Reply) → All IsNormal (bs ++ f.entry ∷ f.after) → IsNormal f.entry
    go [] k = k.0
    go (b ∷ bs) k = go bs k.1

pub keep-IsSingle : (p : Reply → Bool) (rs : List Reply) → IsSingle rs → IsSingle (keep p rs)
keep-IsSingle p rs v = record {
  at_most_one = λ k n. omega (arith, v.at_most_one k n, fewer (same_slot k) rs);
}
  where
    fewer : (q : Reply → Bool) (xs : List Reply) → count q (keep p xs) ≤ count q xs
    fewer q [] = omega arith
    fewer q (x ∷ xs) = ground (arith, fewer q xs)

pub sorted-IsSingle :
    (le : Reply → Reply → Bool) (rs : List Reply) → IsSingle rs → IsSingle (sort_by le rs)
sorted-IsSingle le rs v = record {
  at_most_one = λ k n. rw (count-sort_by (same_slot k) le rs) (v.at_most_one k n);
}
