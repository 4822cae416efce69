-- ===== src/Delivery/Items.antt =====
-- The items of a run: their ids are distinct, and in the order of the map.
-- just these out of the pending deliveries.
use mossbridge.Delivery.Runs.{empty_item, is_one_of, upsert_item, updated_item}
use mossbridge.Delivery.State.{Run}
use mossbridge.Prelude.{
  ◌≡◌, refl, sym, ap, ◌∙◌, inl, inr, Bool, false, ◌||◌, List, [], ◌∷◌, ◌++◌, map, arith, Bool-cases,
  if◌then◌else◌, Text, is_empty, Dict, eq_text, eq_text_iff, get, put, any-append, is_some, or_else,
}

abbrev pub Distinct : List Text → Type 0
Distinct [] = Unit
Distinct (id ∷ ids) = (is_one_of ids id ≡ false) × Distinct ids

abbrev pub keys {ℓ} : {V : Type ℓ} → Dict V → List Text
keys m = map (λ e. e.0) m

-- The order of the items names each item of the map once, and no name is empty.
pub record IsConsistent (run : Run) : Type 0 where
  pub named : is_one_of run.item_order [] ≡ false
  pub ordered : run.item_order ≡ keys run.items
  pub distinct : Distinct run.item_order

is_some-get {ℓ} : {V : Type ℓ} (k : Text) (m : Dict V) → is_some (get k m) ≡ is_one_of (keys m) k
unfolding get
is_some-get k [] = refl
is_some-get k ((j, v) ∷ m) = ground (arith, eq_text_iff j k, eq_text_iff k j, is_some-get k m)

keys-put {ℓ} :
    {V : Type ℓ} (k : Text) (v : V) (m : Dict V)
    → keys (put k v m) ≡ (if is_some (get k m) then keys m else keys m ++ k ∷ [])
unfolding get put
keys-put k v [] = refl
keys-put k v ((j, w) ∷ m) = ground (arith, eq_text_iff j k, keys-put k v m)

Distinct-snoc :
    (ids : List Text) (k : Text) → Distinct ids → is_one_of ids k ≡ false → Distinct (ids ++ k ∷ [])
Distinct-snoc [] k h n = (refl, tt)
Distinct-snoc (id ∷ ids) k h n = (
  ground (arith, any-append (eq_text id) ids (k ∷ []), h.0, n, eq_text_iff id k, eq_text_iff k id),
  Distinct-snoc ids k h.1 (ground (arith, n)),
)

-- A piece of an item with a name keeps the items of a run consistent.
pub upsert_item-IsConsistent :
    (run : Run) (id text : Text) (completed : Bool)
    → is_empty id ≡ false
    → IsConsistent run
    → IsConsistent (upsert_item run id text completed)
unfolding upsert_item
upsert_item-IsConsistent run id text completed ne h = elim (Bool-cases (is_empty text)) [
  | inl e ↦ rw e h
  | inr e ↦
      let item = updated_item (or_else (get id run.items) empty_item) text completed in
      elim (Bool-cases (is_some (get id run.items))) [
        | inl k ↦
            let same : keys run.items ≡ keys (put id item run.items) =
              sym (rw k at (keys-put id item run.items)) in
            rw (e, k)
              (record { named = h.named; ordered = h.ordered ∙ same; distinct = h.distinct })
        | inr k ↦
            let more : keys run.items ++ id ∷ [] ≡ keys (put id item run.items) =
              sym (rw k at (keys-put id item run.items)) in
            rw (e, k)
              (record {
                named = any-append (eq_text []) run.item_order (id ∷ []) ∙ still_named id ne;
                ordered = ap (λ (ids : List Text). ids ++ id ∷ []) h.ordered ∙ more;
                distinct = Distinct-snoc run.item_order id h.distinct (absent k);
              })
      ]
]
  where
    still_named :
        (id : Text)
        → is_empty id ≡ false
        → (is_one_of run.item_order [] || is_one_of (id ∷ []) []) ≡ false
    still_named [] x = absurd (unfold is_empty in cc x)
    still_named (c ∷ t) x = unfold eq_text in rw h.named refl

    absent : is_some (get id run.items) ≡ false → is_one_of run.item_order id ≡ false
    absent k = ap (λ ids. is_one_of ids id) h.ordered ∙ sym (is_some-get id run.items) ∙ k
