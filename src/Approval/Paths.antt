-- ===== src/Approval/Paths.antt =====
-- The file paths of an input are collected once each, without blanks around them.
use mossbridge.Prelude.{
  false, ◌||◌, Option, none, some, List, [], ◌∷◌, ◌++◌, ◌≡◌, refl, inl, inr, arith, Bool-cases,
  any-append, All, All-append, Text, eq_text, eq_text_iff, trim, trim-trim, is_empty, codes,
}
use mossbridge.Approval.Json.{
  Json, Items, Fields, null, boolean, number, text, array, object, end, item, empty, field,
  field_of,
}
use mossbridge.Approval.Input.{
  is_collected, push_unique_text, push_unique_file_path, push_keys, default_file_path_keys,
  push_entries, push_list, push_own, collect_approval_file_paths, collect_nested, collect_field,
  collect_entries, extract_approval_file_paths,
}

-- Each once.
abbrev pub Once : List Text → Type 0
Once [] = Unit
Once (p ∷ ps) = (is_collected ps p ≡ false) × Once ps

abbrev pub IsPath : Text → Type 0
IsPath p = (trim p ≡ p) × (is_empty p ≡ false)

pub record IsCollected (paths : List Text) : Type 0 where
  pub once : Once paths
  pub named : All IsPath paths

Once-snoc : (ps : List Text) (p : Text) → Once ps → is_collected ps p ≡ false → Once (ps ++ p ∷ [])
Once-snoc [] p h n = (refl, tt)
Once-snoc (q ∷ ps) p h n = (
  ground (arith, any-append (eq_text q) ps (p ∷ []), h.0, n, eq_text_iff q p, eq_text_iff p q),
  Once-snoc ps p h.1 (ground (arith, n)),
)

push_unique_text-IsCollected :
    (ps : List Text) (t : Text) → IsCollected ps → IsCollected (push_unique_text ps t)
unfolding push_unique_text
push_unique_text-IsCollected ps t h =
    elim (Bool-cases (is_empty (trim t) || is_collected ps (trim t))) [
      | inl e ↦ rw e h
      | inr e ↦ rw e (record {
        once = Once-snoc ps (trim t) h.once (ground (arith, e));
        named = All-append IsPath ps (trim t ∷ []) h.named ((trim-trim t, ground (arith, e)), tt);
      })
    ]

push_unique-IsCollected :
    (ps : List Text) (v : Option Json) → IsCollected ps → IsCollected (push_unique_file_path ps v)
unfolding push_unique_file_path
push_unique-IsCollected ps none h = h
push_unique-IsCollected ps (some (text t)) h = push_unique_text-IsCollected ps t h
push_unique-IsCollected ps (some null) h = h
push_unique-IsCollected ps (some (boolean _)) h = h
push_unique-IsCollected ps (some (number _)) h = h
push_unique-IsCollected ps (some (array _)) h = h
push_unique-IsCollected ps (some (object _)) h = h

push_keys-IsCollected :
    (ps keys : List Text) (fs : Fields) → IsCollected ps → IsCollected (push_keys ps keys fs)
unfolding push_keys
push_keys-IsCollected ps [] fs h = h
push_keys-IsCollected ps (key ∷ keys) fs h =
    push_keys-IsCollected (push_unique_file_path ps (field_of key fs)) keys fs
      (push_unique-IsCollected ps (field_of key fs) h)

push_entries-IsCollected :
    (ps : List Text) (items : Items) → IsCollected ps → IsCollected (push_entries ps items)
unfolding push_entries
push_entries-IsCollected ps end h = h
push_entries-IsCollected ps (item v rest) h =
    push_entries-IsCollected (push_unique_file_path ps (some v)) rest
      (push_unique-IsCollected ps (some v) h)

push_list-IsCollected :
    (ps : List Text) (v : Option Json) → IsCollected ps → IsCollected (push_list ps v)
unfolding push_list
push_list-IsCollected ps none h = h
push_list-IsCollected ps (some (array items)) h = push_entries-IsCollected ps items h
push_list-IsCollected ps (some null) h = h
push_list-IsCollected ps (some (boolean _)) h = h
push_list-IsCollected ps (some (number _)) h = h
push_list-IsCollected ps (some (text _)) h = h
push_list-IsCollected ps (some (object _)) h = h

push_own-IsCollected :
    (preferred ps : List Text) (fs : Fields)
    → IsCollected ps
    → IsCollected (push_own preferred ps fs)
unfolding push_own
push_own-IsCollected preferred ps fs h =
    push_list-IsCollected (push_keys ps (preferred ++ default_file_path_keys) fs)
      (field_of (codes "paths") fs)
      (push_keys-IsCollected ps (preferred ++ default_file_path_keys) fs h)

module _ (preferred : List Text) where
  mutual
    unfolding collect_approval_file_paths

    collect-IsCollected :
        (ps : List Text) (v : Json)
        → IsCollected ps
        → IsCollected (collect_approval_file_paths preferred ps v)
    collect-IsCollected ps null h = h
    collect-IsCollected ps (boolean _) h = h
    collect-IsCollected ps (number _) h = h
    collect-IsCollected ps (text _) h = h
    collect-IsCollected ps (array _) h = h
    collect-IsCollected ps (object fs) h =
        nested-IsCollected (push_own preferred ps fs) fs (push_own-IsCollected preferred ps fs h)

    nested-IsCollected :
        (ps : List Text) (fs : Fields)
        → IsCollected ps
        → IsCollected (collect_nested preferred ps fs)
    nested-IsCollected ps empty h = h
    nested-IsCollected ps (field _ v rest) h =
        nested-IsCollected (collect_field preferred ps v) rest (field-IsCollected ps v h)

    field-IsCollected :
        (ps : List Text) (v : Json) → IsCollected ps → IsCollected (collect_field preferred ps v)
    field-IsCollected ps null h = h
    field-IsCollected ps (boolean _) h = h
    field-IsCollected ps (number _) h = h
    field-IsCollected ps (text _) h = h
    field-IsCollected ps (array items) h = entries-IsCollected ps items h
    field-IsCollected ps (object fs) h =
        nested-IsCollected (push_own preferred ps fs) fs (push_own-IsCollected preferred ps fs h)

    entries-IsCollected :
        (ps : List Text) (items : Items)
        → IsCollected ps
        → IsCollected (collect_entries preferred ps items)
    entries-IsCollected ps end h = h
    entries-IsCollected ps (item v rest) h =
        entries-IsCollected (collect_approval_file_paths preferred ps v) rest
          (collect-IsCollected ps v h)

  -- The file paths that are collected from an input, nested to any depth, are without blanks around
  -- them, not empty, and each there once.
  pub extract_paths-IsCollected : (v : Json) → IsCollected (extract_approval_file_paths preferred v)
  unfolding extract_approval_file_paths
  extract_paths-IsCollected v = collect-IsCollected [] v (record { once = tt; named = tt })
