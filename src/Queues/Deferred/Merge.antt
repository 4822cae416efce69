-- ===== src/Queues/Deferred/Merge.antt =====
-- `mergeDeferredReplyText`: the merged text says what both texts say, once.
use mossbridge.Prelude.{
  Text, [], ◌∷◌, ◌++◌, append_assoc, if◌then◌else◌, trim, trim-trim, includes, includes_start,
  includes_end, is_empty, eq_text, true, false, ◌≡◌, refl, sym, subst, inl, inr, Bool-cases, arith,
  trim-between, eq_text_iff, ◌||◌,
}
use mossbridge.Queues.Deferred.{merge_deferred_reply_text}

includes_self : (s : Text) → includes s s ≡ true
includes_self s = includes_end [] s

includes_empty : (s t : Text) → is_empty t ≡ true → includes s t ≡ true
unfolding is_empty
includes_empty s [] h = includes_start [] s
includes_empty s (c ∷ t) h = cc

-- What is known of a merged text of the trimmed texts.
pub record IsMerge (left right text : Text) : Type 0 where
  pub has_left : includes text left ≡ true
  pub has_right : includes text right ≡ true
  pub trimmed : trim text ≡ text
  pub named : is_empty left ≡ false → is_empty text ≡ false

-- The merge of two texts that are trimmed.
merge_trimmed : Text → Text → Text
merge_trimmed left right =
    if is_empty left
    then right
    else if is_empty right || eq_text left right || includes left right
    then left
    else if includes right left
    then right
    else left ++ (10 ∷ 10 ∷ [] ++ right)

either_includes :
    (left right : Text)
    → (is_empty right || eq_text left right || includes left right) ≡ true
    → includes left right ≡ true
either_includes left right h = elim (Bool-cases (is_empty right)) [
  | inl e ↦ includes_empty left right e
  | inr e ↦ elim (Bool-cases (eq_text left right)) [
    | inl q ↦
        subst (λ (x : Text). includes left x ≡ true) ((eq_text_iff left right).0 q)
          (includes_self left)
    | inr q ↦ cc (rw (e, q) at h)
  ]
]

joined_named : (l s : Text) → is_empty l ≡ false → is_empty (l ++ s) ≡ false
unfolding is_empty
joined_named [] s h = cc
joined_named (c ∷ l) s h = refl

bigger_named : (l r : Text) → includes r l ≡ true → is_empty l ≡ false → is_empty r ≡ false
unfolding is_empty includes
bigger_named [] r h n = cc
bigger_named (c ∷ l) [] h n = cc
bigger_named (c ∷ l) (d ∷ r) h n = refl

merge_trimmed-IsMerge : (l r : Text) → trim l ≡ l → trim r ≡ r → IsMerge l r (merge_trimmed l r)
unfolding merge_trimmed
merge_trimmed-IsMerge l r pl pr = elim (Bool-cases (is_empty l)) [
  | inl e ↦ rw e (record {
    has_left = includes_empty r l e;
    has_right = includes_self r;
    trimmed = pr;
    named = λ n. absurd (cc (rw e at n));
  })
  | inr e ↦ elim (Bool-cases (is_empty r || eq_text l r || includes l r)) [
    | inl q ↦
        rw (e, q)
          (record {
            has_left = includes_self l;
            has_right = either_includes l r q;
            trimmed = pl;
            named = λ n. n;
          })
    | inr q ↦ elim (Bool-cases (includes r l)) [
      | inl i ↦
          rw (e, q, i)
            (record {
              has_left = i;
              has_right = includes_self r;
              trimmed = pr;
              named = bigger_named l r i;
            })
      | inr i ↦
          rw (e, q, i)
            (record {
              has_left = includes_start l (10 ∷ 10 ∷ [] ++ r);
              has_right =
                  subst (λ (x : Text). includes x r ≡ true) (append_assoc l (10 ∷ 10 ∷ []) r)
                    (includes_end (l ++ 10 ∷ 10 ∷ []) r);
              trimmed = trim-between l (10 ∷ 10 ∷ []) r pl pr e (ground arith);
              named = joined_named l (10 ∷ 10 ∷ [] ++ r);
            })
    ]
  ]
]

merged_trimmed : (a b : Text) → merge_deferred_reply_text a b ≡ merge_trimmed (trim a) (trim b)
unfolding merge_deferred_reply_text merge_trimmed
merged_trimmed a b = refl

pub IsMerge-IsMerge : (a b : Text) → IsMerge (trim a) (trim b) (merge_deferred_reply_text a b)
IsMerge-IsMerge a b =
    subst (IsMerge (trim a) (trim b)) (sym (merged_trimmed a b))
      (merge_trimmed-IsMerge (trim a) (trim b) (trim-trim a) (trim-trim b))

-- The merge of two texts includes each of them, trimmed.
merge-includes :
    (a b : Text)
    → (includes (merge_deferred_reply_text a b) (trim a) ≡ true)
      × (includes (merge_deferred_reply_text a b) (trim b) ≡ true)
merge-includes a b = let m = IsMerge-IsMerge a b in (m.has_left, m.has_right)

absorbed :
    (m b : Text) → trim m ≡ m → includes m (trim b) ≡ true → merge_deferred_reply_text m b ≡ m
unfolding merge_deferred_reply_text
absorbed m b t i = elim (Bool-cases (is_empty m)) [
  | inl e ↦ rw (t, e) (both_empty m (trim b) e i)
  | inr e ↦
      rw (t, e, i)
        (elim (Bool-cases (is_empty (trim b))) [
          | inl q ↦ rw q refl
          | inr q ↦ elim (Bool-cases (eq_text m (trim b))) [
            | inl d ↦ rw (q, d) refl
            | inr d ↦ rw (q, d) refl
          ]
        ])
]
  where
    both_empty : (x y : Text) → is_empty x ≡ true → includes x y ≡ true → y ≡ x
    both_empty [] [] h k = refl
    both_empty [] (c ∷ y) h k = unfold includes is_empty in cc
    both_empty (c ∷ x) y h k = unfold is_empty in cc

-- Merging the same text a second time changes nothing, so that a reply that is deferred again is
-- not said twice.
pub merge-merge :
    (a b : Text)
    → merge_deferred_reply_text (merge_deferred_reply_text a b) b ≡ merge_deferred_reply_text a b
merge-merge a b =
    let m = IsMerge-IsMerge a b in absorbed (merge_deferred_reply_text a b) b m.trimmed m.has_right
