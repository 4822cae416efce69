-- ===== src/Queues/Stored.antt =====
-- A queue whose operations read the list from its file, `.map(normalize).filter(Boolean).sort(...)`,
-- and write a list back when they change it.
use mossbridge.Prelude.{refl, sort_by_fixed, sort_by-IsSorted}
use mossbridge.Queues.Shape.{normalize_all, normalize_all-map, All-sort_by}
use mossbridge.Prelude.{
  ℕ, List, [], ◌∷◌, Option, some, Bool, map, All, ◌≡◌, Order, sort_by, IsSorted, keep, ◌++◌,
  All-append, All-keep, filter-IsSorted,
}

module _ {ℓ κ} {Raw : Type ℓ} {A : Type κ} (normalize : ℕ → Raw → Option A) (saved : A → Raw)
    (le : A → A → Bool) where
  unfoldable pub load_sorted : ℕ → List Raw → List A
  load_sorted now file = sort_by le (normalize_all (normalize now) file)

  -- An entry that is read back as it was written, at any time.
  abbrev pub ReadsBack : A → Type κ
  ReadsBack a = (now : ℕ) → normalize now (saved a) ≡ some a

  -- The file holds these entries, in order.
  pub record Holds (file : List Raw) (xs : List A) : Type (ℓ ⊔ κ) where
    pub written : file ≡ map saved xs
    pub normal : All ReadsBack xs
    pub sorted : IsSorted le xs

  at_time :
      (now : ℕ) (xs : List A) → All ReadsBack xs → All (λ a. normalize now (saved a) ≡ some a) xs
  at_time now [] h = tt
  at_time now (a ∷ xs) h = (h.0 now, at_time now xs h.1)

  pub load_sorted-Holds :
      (now : ℕ) (file : List Raw) (xs : List A) → Holds file xs → load_sorted now file ≡ xs
  unfolding load_sorted
  load_sorted-Holds now file xs v =
      rw
        (
          v.written,
          normalize_all-map (normalize now) saved xs (at_time now xs v.normal),
          sort_by_fixed le xs v.sorted,
        )
        refl

  pub keep-Holds :
      (p : A → Bool) (file : List Raw) (xs : List A)
      → Holds file xs
      → Holds (map saved (keep p xs)) (keep p xs)
  keep-Holds p file xs v = record {
    written = refl;
    normal = All-keep ReadsBack p xs v.normal;
    sorted = filter-IsSorted le p xs v.sorted;
  }

  -- Sorting entries that read back gives a file that holds them.
  pub sort_by-Holds :
      (o : Order le) (xs : List A)
      → All ReadsBack xs
      → Holds (map saved (sort_by le xs)) (sort_by le xs)
  sort_by-Holds o xs h = record {
    written = refl;
    normal = All-sort_by ReadsBack le xs h;
    sorted = sort_by-IsSorted le o xs;
  }

  -- Adding an entry at the end and sorting.
  pub push-Holds :
      (o : Order le) (file : List Raw) (xs : List A) (a : A)
      → Holds file xs
      → ReadsBack a
      → Holds (map saved (sort_by le (xs ++ a ∷ []))) (sort_by le (xs ++ a ∷ []))
  push-Holds o file xs a v h =
      sort_by-Holds o (xs ++ a ∷ []) (All-append ReadsBack xs (a ∷ []) v.normal (h, tt))
