-- ===== src/Delivery/Marks.antt =====
-- Marking items as sent takes just these out of the pending deliveries.
-- just these out of the pending deliveries.
use mossbridge.Delivery.Runs.{is_text, is_one_of, add_sent, add_all_sent}
use mossbridge.Delivery.State.{Item}
use mossbridge.Delivery.Actions.{Reader}
use mossbridge.Delivery.Collect.{Content, Pending, collect_along, content_of_item, push_content}
use mossbridge.Delivery.Items.{Distinct}
use mossbridge.Prelude.{
  ◌≡◌, refl, sym, ap, ◌∙◌, subst, inl, inr, Bool, true, false, ◌||◌, not, Option, none, some, List,
  [], ◌∷◌, ◌++◌, map, arith, Bool-cases, Text, is_empty, Dict, eq_text, eq_text_iff, eq_text_refl,
  get, any-append, keep,
}

member_same :
    (ids : List Text) (i id : Text)
    → is_one_of ids i ≡ true
    → eq_text id i ≡ true
    → is_one_of ids id ≡ true
member_same ids i id h e = subst (λ x. is_one_of ids x ≡ true) (sym ((eq_text_iff id i).0 e)) h

is_one_of-add_sent :
    (ids : List Text) (i id : Text)
    → is_one_of (add_sent ids i) id ≡ (is_one_of ids id || eq_text id i)
unfolding add_sent
is_one_of-add_sent ids i id = elim (Bool-cases (is_one_of ids i)) [
  | inr e ↦ rw e (any-append (eq_text id) ids (i ∷ []) ∙ or_end (eq_text id i))
  | inl e ↦ rw e (elim (Bool-cases (eq_text id i)) [
    | inl q ↦ rw (q, member_same ids i id e q) refl
    | inr q ↦ rw q (or_nothing (is_one_of ids id))
  ])
]
  where
    or_end : (b : Bool) → (is_one_of ids id || (b || false)) ≡ (is_one_of ids id || b)
    or_end b = ground arith

    or_nothing : (b : Bool) → b ≡ (b || false)
    or_nothing b = ground arith

-- An item is sent after some are if it was before, or is one of these.
is_one_of-add_all :
    (ids is : List Text) (id : Text)
    → is_one_of (add_all_sent ids is) id ≡ (is_one_of ids id || is_one_of is id)
is_one_of-add_all ids [] id = ground arith
is_one_of-add_all ids (i ∷ is) id =
    ground (arith, is_one_of-add_all (add_sent ids i) is id, is_one_of-add_sent ids i id)

abbrev is_left : List Text → Pending → Bool
is_left is p = not (is_one_of is p.item_id)

module _ (r : Reader) (runtime_id provider : Text) (items : Dict Item) (force : Bool) where
  keep-push :
      (is : List Text) (id : Text) (c : Option Content) (ps : List Pending)
      → is_one_of is id ≡ false
      → keep (is_left is) (push_content r runtime_id provider id c ps)
        ≡ push_content r runtime_id provider id c (keep (is_left is) ps)
  keep-push is id none ps h = refl
  keep-push is id (some c) ps h = rw h refl

  drop-push :
      (is : List Text) (id : Text) (c : Option Content) (ps : List Pending)
      → is_one_of is id ≡ true
      → keep (is_left is) (push_content r runtime_id provider id c ps) ≡ keep (is_left is) ps
  drop-push is id none ps h = refl
  drop-push is id (some c) ps h = rw h refl

  collect-add_all :
      (sent_ids is ids : List Text)
      → collect_along r runtime_id provider items force (add_all_sent sent_ids is) ids
        ≡ keep (is_left is) (collect_along r runtime_id provider items force sent_ids ids)
  unfolding collect_along
  collect-add_all sent_ids is [] = refl
  collect-add_all sent_ids is (id ∷ ids) =
      let ih = collect-add_all sent_ids is ids in
      let known = is_one_of-add_all sent_ids is id in
      let c = content_of_item r runtime_id provider force (get id items) in
      let rest = collect_along r runtime_id provider items force sent_ids ids in
      elim (Bool-cases (is_one_of sent_ids id)) [
        | inl a ↦ rw (known, a, ih) refl
        | inr a ↦ elim (Bool-cases (is_one_of is id)) [
          | inl b ↦ rw (known, a, b, ih) (sym (drop-push is id c rest b))
          | inr b ↦ rw (known, a, b, ih) (sym (keep-push is id c rest b))
        ]
      ]

  absent-push :
      (i id : Text) (c : Option Content) (ps : List Pending)
      → eq_text id i ≡ false
      → is_one_of (map (λ p. p.item_id) ps) id ≡ false
      → is_one_of (map (λ p. p.item_id) (push_content r runtime_id provider i c ps)) id ≡ false
  absent-push i id none ps ne h = h
  absent-push i id (some c) ps ne h = rw (ne, h) refl

  Distinct-push :
      (i : Text) (c : Option Content) (ps : List Pending)
      → is_one_of (map (λ p. p.item_id) ps) i ≡ false
      → Distinct (map (λ p. p.item_id) ps)
      → Distinct (map (λ p. p.item_id) (push_content r runtime_id provider i c ps))
  Distinct-push i none ps n h = h
  Distinct-push i (some c) ps n h = (n, h)

  -- The pending items are some of the items, once each.
  pub absent-collect :
      (sent_ids ids : List Text) (id : Text)
      → is_one_of ids id ≡ false
      → is_one_of
          (map (λ p. p.item_id) (collect_along r runtime_id provider items force sent_ids ids))
          id
        ≡ false
  unfolding collect_along
  absent-collect sent_ids [] id h = refl
  absent-collect sent_ids (i ∷ ids) id h =
      let ih = absent-collect sent_ids ids id (ground (arith, h)) in
      elim (Bool-cases (is_one_of sent_ids i)) [
        | inl a ↦ rw a ih
        | inr a ↦ rw a (
            absent-push i id (content_of_item r runtime_id provider force (get i items))
              (collect_along r runtime_id provider items force sent_ids ids) (ground (arith, h)) ih)
      ]

  Distinct-collect :
      (sent_ids ids : List Text)
      → Distinct ids
      → Distinct
          (map (λ p. p.item_id) (collect_along r runtime_id provider items force sent_ids ids))
  unfolding collect_along
  Distinct-collect sent_ids [] h = tt
  Distinct-collect sent_ids (i ∷ ids) h =
      let ih = Distinct-collect sent_ids ids h.1 in
      elim (Bool-cases (is_one_of sent_ids i)) [
        | inl a ↦ rw a ih
        | inr a ↦ rw a (
            Distinct-push i (content_of_item r runtime_id provider force (get i items))
              (collect_along r runtime_id provider items force sent_ids ids)
              (absent-collect sent_ids ids i h.0) ih)
      ]

abbrev pub ids_of : List Pending → List Text
ids_of ps = map (λ p. p.item_id) ps

keep_more :
    (i : Text) (is : List Text) (ps : List Pending)
    → is_one_of (ids_of ps) i ≡ false
    → keep (is_left (i ∷ is)) ps ≡ keep (is_left is) ps
keep_more i is [] h = refl
keep_more i is (p ∷ ps) h =
    ground (arith, h, keep_more i is ps, eq_text_iff i p.item_id, eq_text_iff p.item_id i)

keep_nothing : (ps : List Pending) → keep (is_left []) ps ≡ ps
keep_nothing [] = refl
keep_nothing (p ∷ ps) = ap (λ (l : List Pending). p ∷ l) (keep_nothing ps)

-- Of distinct deliveries, those that are not of the first part are the others.
pub keep-others :
    (done left : List Pending)
    → Distinct (ids_of (done ++ left))
    → keep (is_left (ids_of done)) (done ++ left) ≡ left
keep-others [] left h = keep_nothing left
keep-others (p ∷ done) left h =
    rw (eq_text_refl p.item_id)
      (keep_more p.item_id (ids_of done) (done ++ left) h.0 ∙ keep-others done left h.1)

-- What is left to collect after the deliveries that come first are marked as sent.
pub collect-marked :
    (r : Reader) (runtime_id provider : Text) (items : Dict Item) (force : Bool)
    (sent_ids ids : List Text) (done left : List Pending)
    → Distinct ids
    → collect_along r runtime_id provider items force sent_ids ids ≡ done ++ left
    → collect_along r runtime_id provider items force (add_all_sent sent_ids (ids_of done)) ids
      ≡ left
collect-marked r runtime_id provider items force sent_ids ids done left h e =
    collect-add_all r runtime_id provider items force sent_ids (ids_of done) ids
    ∙ ap (keep (is_left (ids_of done))) e
    ∙ keep-others done left (
        subst (λ ps. Distinct (ids_of ps)) e
          (Distinct-collect r runtime_id provider items force sent_ids ids h))

pub add_all-append :
    (ids is js : List Text) → add_all_sent ids (is ++ js) ≡ add_all_sent (add_all_sent ids is) js
add_all-append ids [] js = refl
add_all-append ids (i ∷ is) js = add_all-append (add_sent ids i) is js

pub keep_named : (ids : List Text) → is_one_of ids [] ≡ false → keep is_text ids ≡ ids
unfolding is_empty
keep_named [] h = refl
keep_named ([] ∷ ids) h = absurd (unfold eq_text in cc h)
keep_named ((c ∷ t) ∷ ids) h =
    ap (λ (l : List Text). (c ∷ t) ∷ l) (keep_named ids (ground (arith, h)))

pub absent_end :
    (is js : List Text) (id : Text) → is_one_of (is ++ js) id ≡ false → is_one_of js id ≡ false
absent_end is js id h = ground (arith, h, any-append (eq_text id) is js)
