-- ===== src/Refresh/Grace.antt =====
-- The turns of grace are a budget: each use takes one, and none is used that was not granted.
use mossbridge.Prelude.{
  split_last-IsLast, IsLast, ap, sym, ◌==◌, Option-cases, ℕ, ◌+◌, ◌-◌, ◌≤◌, is_empty, List, [], ◌∷◌,
  ◌++◌, Option, none, some, false, ◌||◌, ◌≡◌, refl, arith, inl, inr, Bool-cases, Found, replaced,
  split_last,
}
use mossbridge.Js.{Value, normalize_text}
use mossbridge.Refresh.Request.{Request, Scope, normalize_scope, scope_missing}
use mossbridge.Refresh.Store.{
  State, grants_grace, grace_expired, use_grace, consume_post_refresh_grace,
}

abbrev pub total_grace : List Request → ℕ
total_grace [] = 0
total_grace (e ∷ es) = e.grace_remaining + total_grace es

total_grace-append :
    (xs ys : List Request) → total_grace (xs ++ ys) ≡ total_grace xs + total_grace ys
total_grace-append [] ys = omega arith
total_grace-append (x ∷ xs) ys = omega (arith, total_grace-append xs ys)

abbrev pub uses {ℓ} : {A : Type ℓ} → Option A → ℕ
uses none = 0
uses (some _) = 1

total-replaced :
    (f : Found Request) (x : Request)
    → total_grace (replaced f x) + f.entry.grace_remaining
      ≡ total_grace (f.before ++ f.entry ∷ f.after) + x.grace_remaining
total-replaced f x = omega (
  arith,
  total_grace-append f.before (x ∷ f.after),
  total_grace-append f.before (f.entry ∷ f.after),
)

-- What one use does to the total, by the entry that the search finds.
use_grace-budget :
    (st : State) (o : Option (Found Request)) (max_age now : ℕ)
    → ((f : Found Request) → o ≡ some f → st.requests ≡ f.before ++ f.entry ∷ f.after)
    → total_grace (use_grace st o max_age now).0.requests + uses (use_grace st o max_age now).1
      ≤ total_grace st.requests
unfolding use_grace
use_grace-budget st none max_age now e = omega arith
use_grace-budget st (some f) max_age now e = rw (e f refl) (
    ground (
      arith,
      total-replaced f (record f.entry { grace_remaining = 0; grace_expired_at = some now }),
      total-replaced f (record f.entry {
        grace_remaining = f.entry.grace_remaining - 1;
        grace_last_used_at = some now;
      }),
    ))

-- A call of the store about grace.
pub record Use : Type 0 where
  pub binding : Value
  pub workspace : Value
  pub runtime : Value
  pub thread : Value
  pub max_age : ℕ
  pub now : ℕ

abbrev pub use_once : State → Use → State × Option (Request × ℕ)
use_once st u =
    consume_post_refresh_grace st u.binding u.workspace u.runtime u.thread u.max_age u.now

abbrev pub scope_of : Use → Scope
scope_of u = normalize_scope u.binding u.workspace u.runtime

use_once-budget :
    (st : State) (u : Use)
    → total_grace (use_once st u).0.requests + uses (use_once st u).1 ≤ total_grace st.requests
unfolding consume_post_refresh_grace
use_once-budget st u =
    elim (Bool-cases (scope_missing (scope_of u) || is_empty (normalize_text u.thread))) [
      | inl e ↦ rw e (omega arith)
      | inr e ↦ rw e (
          use_grace-budget st
            (split_last (grants_grace (scope_of u) (normalize_text u.thread)) st.requests) u.max_age
            u.now
            (λ f h.
              (split_last-IsLast (grants_grace (scope_of u) (normalize_text u.thread)) st.requests f
                h).place))
    ]

-- How many of a sequence of calls are granted.
abbrev pub granted : State → List Use → ℕ
granted st [] = 0
granted st (u ∷ us) = uses (use_once st u).1 + granted (use_once st u).0 us

-- However the calls of `consumePostRefreshGrace` come, with any scope, thread, age limit and clock,
-- no more uses are granted than the entries of the store hold in turns.
pub granted-le-total_grace : (st : State) (us : List Use) → granted st us ≤ total_grace st.requests
granted-le-total_grace st [] = omega arith
granted-le-total_grace st (u ∷ us) =
    omega (arith, use_once-budget st u, granted-le-total_grace (use_once st u).0 us)

-- An entry with one turn less, used at a time.
abbrev pub used : Request → ℕ → Request
used e now = record e { grace_remaining = e.grace_remaining - 1; grace_last_used_at = some now }

-- A granted use, by the entry that the search finds and the turns that it holds.
use_grace-grants :
    (st : State) (f : Found Request) (max_age now : ℕ) {e : Request} {n : ℕ}
    → (use_grace st (some f) max_age now).1 ≡ some (e, n)
    → (f.entry.grace_remaining ≡ n)
      × (1 ≤ n)
      × (grace_expired f.entry max_age now ≡ false)
      × (e ≡ used f.entry now)
      × ((use_grace st (some f) max_age now).0
          ≡ record st { requests = f.before ++ used f.entry now ∷ f.after })
unfolding use_grace
use_grace-grants st f max_age now h = elim (Bool-cases (f.entry.grace_remaining == 0)) [
  | inl z ↦ absurd (cc (rw z at h))
  | inr z ↦ elim (Bool-cases (grace_expired f.entry max_age now)) [
    | inl x ↦ absurd (cc (rw (z, x) at h))
    | inr x ↦
        rw (z, x)
          (
            ap (λ (p : Request × ℕ). p.1) (same (rw (z, x) at h)),
            omega (arith, ap (λ (p : Request × ℕ). p.1) (same (rw (z, x) at h)), positive z),
            refl,
            ap (λ (p : Request × ℕ). p.0) (sym (same (rw (z, x) at h))),
            refl,
          )
  ]
]
  where
    positive : (f.entry.grace_remaining == 0) ≡ false → 1 ≤ f.entry.grace_remaining
    positive z = ground (arith, z)

    same : {p q : Request × ℕ} → some p ≡ some q → p ≡ q
    same k = cc k

-- A granted use is of the last entry that completed in the scope with the thread as its grace
-- thread. That entry held the returned number of turns, at least one, and was not too old. What is
-- returned is that entry with one turn less, used now, and the state afterwards has it in the
-- entry's place and is otherwise as it was.
pub consume_post_refresh_grace-grants :
    (st : State) (u : Use) (e : Request) (n : ℕ)
    → (use_once st u).1 ≡ some (e, n)
    → (f : Found Request) × IsLast
        (grants_grace (scope_of u) (normalize_text u.thread))
        st.requests
        f
      × (f.entry.grace_remaining ≡ n)
      × (1 ≤ n)
      × (grace_expired f.entry u.max_age u.now ≡ false)
      × (e ≡ used f.entry u.now)
      × ((use_once st u).0 ≡ record st { requests = f.before ++ used f.entry u.now ∷ f.after })
unfolding consume_post_refresh_grace
consume_post_refresh_grace-grants st u e n h =
    elim (Bool-cases (scope_missing (scope_of u) || is_empty (normalize_text u.thread))) [
      | inl b ↦ absurd (cc (rw b at h))
      | inr b ↦
          let grants = grants_grace (scope_of u) (normalize_text u.thread) in
          elim (Option-cases (split_last grants st.requests)) [
            | inl q ↦ absurd (nothing (rw (b, q) at h))
            | inr (f, q) ↦
                let (held, some_left, young, is, left) =
                  use_grace-grants st f u.max_age u.now (rw (b, q) at h) in
                rw (b, q)
                  (f, split_last-IsLast grants st.requests f q, held, some_left, young, is, left)
          ]
    ]
  where
    nothing : (use_grace st none u.max_age u.now).1 ≡ some (e, n) → ⊥
    nothing k = unfold use_grace in cc k
