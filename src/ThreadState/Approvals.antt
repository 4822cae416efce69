-- ===== src/ThreadState/Approvals.antt =====
-- The ids of the approvals that wait in a thread, in the order in which they will be shown.
use mossbridge.Prelude.{
  Text, eq_text, eq_text_iff, is_empty, List, [], ◌∷◌, ◌++◌, Option, none, some, Bool, false, not,
  ◌||◌, if◌then◌else◌, any, keep, ◌≡◌, refl, arith,
}
use mossbridge.ThreadState.{
  Approval, id_of, normalize_approval_request_id, normalize_approval_payload,
  normalize_approval_queue, queue_approval_if_missing,
}

abbrev pub pending_ids : Option Approval → List Text
pending_ids none = []
pending_ids (some a) = id_of a ∷ []

abbrev pub ids : List Approval → List Text
ids [] = []
ids (a ∷ q) = id_of a ∷ ids q

abbrev pub member : Text → List Text → Bool
member i xs = any (λ x. eq_text x i) xs

abbrev pub without : Text → List Text → List Text
without i xs = keep (λ x. not (eq_text x i)) xs

-- No id is there twice.
abbrev pub Distinct : List Text → Type 0
Distinct [] = Unit
Distinct (x ∷ xs) = (member x xs ≡ false) × Distinct xs

abbrev pub Named : List Text → Type 0
Named [] = Unit
Named (x ∷ xs) = (is_empty x ≡ false) × Named xs

pub id_of-normalize : (a : Approval) → id_of (normalize_approval_payload a) ≡ id_of a
unfolding normalize_approval_payload normalize_approval_request_id
id_of-normalize a = refl

pub ids-normalize : (q : List Approval) → ids (normalize_approval_queue q) ≡ ids q
unfolding normalize_approval_queue
ids-normalize [] = refl
ids-normalize (a ∷ q) = rw (id_of-normalize a, ids-normalize q)

pub ids-append : (p q : List Approval) → ids (p ++ q) ≡ ids p ++ ids q
ids-append [] q = refl
ids-append (a ∷ p) q = rw (ids-append p q)

pub any-ids : (i : Text) (q : List Approval) → any (λ a. eq_text (id_of a) i) q ≡ member i (ids q)
any-ids i [] = refl
any-ids i (a ∷ q) = rw (any-ids i q)

pub ids-keep :
    (i : Text) (q : List Approval)
    → ids (keep (λ a. not (eq_text (id_of a) i)) q) ≡ without i (ids q)
ids-keep i [] = refl
ids-keep i (a ∷ q) = ground (arith, ids-keep i q)

pub ids-queue :
    (q : List Approval) (a : Approval)
    → is_empty (id_of a) ≡ false
    → ids (queue_approval_if_missing q a)
      ≡ (if member (id_of a) (ids q) then ids q else ids q ++ id_of a ∷ [])
unfolding queue_approval_if_missing
ids-queue q a h = ground (arith, any-ids (id_of a) q, ids-append q (a ∷ []))

pub without_absent : (i : Text) (xs : List Text) → member i xs ≡ false → without i xs ≡ xs
without_absent i [] h = refl
without_absent i (x ∷ xs) h = ground (arith, without_absent i xs)

pub member-append :
    (i : Text) (xs ys : List Text) → member i (xs ++ ys) ≡ (member i xs || member i ys)
member-append i [] ys = refl
member-append i (x ∷ xs) ys = ground (arith, member-append i xs ys)

pub Distinct-snoc :
    (i : Text) (xs : List Text) → Distinct xs → member i xs ≡ false → Distinct (xs ++ i ∷ [])
Distinct-snoc i [] d h = (refl, tt)
Distinct-snoc i (x ∷ xs) d h = (
  ground (arith, member-append x xs (i ∷ []), eq_text_iff x i, eq_text_iff i x),
  Distinct-snoc i xs d.1 (ground arith),
)

pub Named-snoc : (i : Text) (xs : List Text) → Named xs → is_empty i ≡ false → Named (xs ++ i ∷ [])
Named-snoc i [] d h = (h, tt)
Named-snoc i (x ∷ xs) d h = (d.0, Named-snoc i xs d.1 h)

pub member-without :
    (i j : Text) (xs : List Text) → member i xs ≡ false → member i (without j xs) ≡ false
member-without i j [] h = refl
member-without i j (x ∷ xs) h = ground (arith, member-without i j xs)

pub Distinct-without : (i : Text) (xs : List Text) → Distinct xs → Distinct (without i xs)
Distinct-without i [] d = tt
Distinct-without i (x ∷ xs) d = ground (arith, Distinct-without i xs d.1, member-without x i xs)

pub Named-without : (i : Text) (xs : List Text) → Named xs → Named (without i xs)
Named-without i [] d = tt
Named-without i (x ∷ xs) d = ground (arith, Named-without i xs d.1)
