-- ===== src/Delivery/Suppression.antt =====
-- The runs of a thread that are to be silent, by their number.
use mossbridge.Delivery.State.{Delivery}
use mossbridge.Delivery.Targets.{
  count_down, count_of, suppress_next_run_for_thread, consume_suppressed_run,
}
use mossbridge.Prelude.{
  ℕ, suc, ◌+◌, ◌-◌, ◌≡◌, refl, ap, ◌∙◌, inl, inr, Bool, true, false, none, some, arith, Bool-cases,
  if◌then◌else◌, Text, trim, is_empty, eq_text, eq_text_refl, eq_text_iff, Dict, get, put, remove,
  get-put, get-remove, or_else, ◌==◌, ==_iff,
}
use mossbridge.Js.{Value, normalize_text, trim-normalize_text}

count-put :
    (k j : Text) (n : ℕ) (m : Dict ℕ)
    → count_of j (put k n m) ≡ (if eq_text k j then n else count_of j m)
count-put k j n m = ap (λ o. or_else o 0) (get-put k j n m) ∙ spread (eq_text k j)
  where
    spread :
        (b : Bool) → or_else (if b then some n else get j m) 0 ≡ (if b then n else count_of j m)
    spread true = refl
    spread false = refl

count-remove :
    (k j : Text) (m : Dict ℕ) → count_of j (remove k m) ≡ (if eq_text k j then 0 else count_of j m)
count-remove k j m = ap (λ o. or_else o 0) (get-remove k j m) ∙ spread (eq_text k j)
  where
    spread : (b : Bool) → or_else (if b then none else get j m) 0 ≡ (if b then 0 else count_of j m)
    spread true = refl
    spread false = refl

abbrev raised : Text → Dict ℕ → Dict ℕ
raised t m = put t (count_of t m + 1) m

count-raised : (t : Text) (m : Dict ℕ) → count_of t (raised t m) ≡ count_of t m + 1
count-raised t m = count-put t t (count_of t m + 1) m ∙ chosen (eq_text t t) (eq_text_refl t)
  where
    chosen :
        (b : Bool) → b ≡ true → (if b then count_of t m + 1 else count_of t m) ≡ count_of t m + 1
    chosen true h = refl
    chosen false h = absurd (cc h)

count_down-raised :
    (t j : Text) (m : Dict ℕ) → count_of j (count_down t (raised t m)) ≡ count_of j m
count_down-raised t j m = elim (Bool-cases (count_of t (raised t m) == 1)) [
  | inl e ↦ rw e (elim (Bool-cases (eq_text t j)) [
    | inl q ↦ rw (count-remove t j (raised t m), q) (none_left e ∙ at_key q)
    | inr q ↦ rw (count-remove t j (raised t m), q) (untouched q)
  ])
  | inr e ↦ rw e (elim (Bool-cases (eq_text t j)) [
    | inl q ↦
        rw (count-put t j (count_of t (raised t m) - 1) (raised t m), q)
          (omega (arith, count-raised t m) ∙ at_key q)
    | inr q ↦ rw (count-put t j (count_of t (raised t m) - 1) (raised t m), q) (untouched q)
  ])
]
  where
    at_key : eq_text t j ≡ true → count_of t m ≡ count_of j m
    at_key q = ap (λ k. count_of k m) ((eq_text_iff t j).0 q)

    none_left : (count_of t (raised t m) == 1) ≡ true → 0 ≡ count_of t m
    none_left e = omega (arith, count-raised t m, (==_iff (count_of t (raised t m)) 1).0 e)

    untouched : eq_text t j ≡ false → count_of j (raised t m) ≡ count_of j m
    untouched q = rw (count-put t j (count_of t m + 1) m, q) refl

consume-raised :
    (d : Delivery) (t j : Text)
    → trim t ≡ t
    → is_empty t ≡ false
    → let m = d.suppressed_run_count_by_thread_id in
      let (d', suppressed) =
        consume_suppressed_run (record d { suppressed_run_count_by_thread_id = raised t m }) t in
      (suppressed ≡ true) × (count_of j d'.suppressed_run_count_by_thread_id ≡ count_of j m)
unfolding consume_suppressed_run
consume-raised d t j e h =
    let m = d.suppressed_run_count_by_thread_id in
    rw (consume_suppressed_run, e, h, positive (count-raised t m ∙ plus_one (count_of t m)))
      (refl, count_down-raised t j m)
  where
    plus_one : (k : ℕ) → k + 1 ≡ suc k
    plus_one k = omega arith

    positive : {n k : ℕ} → n ≡ suc k → (n == 0) ≡ false
    positive q = ground (arith, q)

-- Taking the count down after it was raised says that a run is to be suppressed, and leaves every
-- thread's count as it was before.
pub consume_suppressed_run-suppress :
    (d : Delivery) (thread : Value) (j : Text)
    → is_empty (normalize_text thread) ≡ false
    → let (d', suppressed) =
        consume_suppressed_run (suppress_next_run_for_thread d thread) (normalize_text thread) in
      (suppressed ≡ true)
      × (count_of j d'.suppressed_run_count_by_thread_id
          ≡ count_of j d.suppressed_run_count_by_thread_id)
unfolding suppress_next_run_for_thread
consume_suppressed_run-suppress d thread j h =
    rw (suppress_next_run_for_thread, h)
      (consume-raised d (normalize_text thread) j (trim-normalize_text thread) h)
