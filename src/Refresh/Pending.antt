-- ===== src/Refresh/Pending.antt =====
-- What `requestRefresh` leaves pending.
use mossbridge.Prelude.{
  length-append, ℕ, Text, trim, or_text, codes, eq_text, eq_text_refl, List, [], ◌∷◌, ◌++◌, Option,
  some, Bool, true, false, not, ◌&&◌, keep, length, last_n, ◌≡◌, refl, arith, ◌≤◌, split_last_here,
  last_n-snoc, any-last_n, any-keep-not, keep-append, keep_none, length-last_n, ◌∙◌, ap,
}
use mossbridge.Js.{Value, normalize_text, trim-normalize_text}
use mossbridge.Refresh.Request.{
  Request, Run, normalize_scope, scope_missing, same_scope, is_pending, is_same_pending_scope,
  pending_request_matches_current_thread,
}
use mossbridge.Refresh.Store.{
  State, fresh_request, enqueue_request, request_refresh, get_pending_request,
}

trim-runtime :
    (t : Text) → trim t ≡ t → trim (or_text t (codes "codex")) ≡ or_text t (codes "codex")
unfolding or_text trim
trim-runtime [] h = refl
trim-runtime (c ∷ s) h = h

trim_self : (t : Text) → trim t ≡ t → eq_text (trim t) t ≡ true
trim_self t h = rw h (eq_text_refl t)

-- A scope that was normalized is the scope of an entry that carries it.
pub scope_self :
    (b w r : Value) (e : Request)
    → e.scope ≡ normalize_scope b w r
    → same_scope e (normalize_scope b w r) ≡ true
unfolding same_scope normalize_scope
scope_self b w r e h = rw (
  h,
  trim_self (normalize_text b) (trim-normalize_text b),
  trim_self (normalize_text w) (trim-normalize_text w),
  trim_self (or_text (normalize_text r) (codes "codex"))
      (trim-runtime (normalize_text r) (trim-normalize_text r)),
)

-- The list ends with the new entry, behind the last others that are not pending in its scope.
enqueue_request_lem :
    (requests : List Request) (next : Request)
    → enqueue_request requests next
      ≡ last_n 99 (keep (λ e. not (is_same_pending_scope e next.scope)) requests) ++ next ∷ []
unfolding enqueue_request
enqueue_request_lem requests next =
    last_n-snoc 99 (keep (λ e. not (is_same_pending_scope e next.scope)) requests) next

module _ (st : State) (id : Text)
    (binding workspace runtime old_thread reason requested_by causal : Value) (generation : ℕ)
    (run : Run) (now : ℕ)
    (complete : scope_missing (normalize_scope binding workspace runtime) ≡ false) where
  abbrev pub next : Request
  next =
      fresh_request id (normalize_scope binding workspace runtime) old_thread reason requested_by
        causal generation run now

  abbrev pub requested : State
  requested =
      (request_refresh st id binding workspace runtime old_thread reason requested_by causal
        generation run now).0

  next-pending : is_same_pending_scope next (normalize_scope binding workspace runtime) ≡ true
  unfolding is_same_pending_scope is_pending fresh_request
  next-pending = scope_self binding workspace runtime _ refl

  refreshed :
      request_refresh st id binding workspace runtime old_thread reason requested_by causal
        generation run now
      ≡ (record st { requests = enqueue_request st.requests next }, some next)
  unfolding request_refresh
  refreshed = rw complete

  requests-requested :
      requested.requests
      ≡ last_n 99 (
          keep
            (λ e. not (is_same_pending_scope e (normalize_scope binding workspace runtime)))
            st.requests)
        ++ next ∷ []
  unfolding fresh_request
  requests-requested =
      ap (λ (t : State × Option Request). t.0.requests) refreshed
      ∙ enqueue_request_lem st.requests next

  -- A new request, in a scope with a binding key and a workspace, is the one that
  -- `getPendingRequest` finds in its scope, when the current thread or the thread that it asked to
  -- leave is not known, or they are one.
  pub get_pending_request-request_refresh :
      (current : Value)
      → pending_request_matches_current_thread next (normalize_text current) ≡ true
      → get_pending_request requested binding workspace runtime current ≡ some next
  unfolding get_pending_request
  get_pending_request-request_refresh current h = rw (
    complete,
    requests-requested,
    split_last_here
        (λ e.
          is_same_pending_scope e (normalize_scope binding workspace runtime)
          && pending_request_matches_current_thread e (normalize_text current))
        (last_n 99 (
          keep (λ e. not (is_same_pending_scope e (normalize_scope binding workspace runtime)))
            st.requests))
        next [] (rw (next-pending, h)) refl,
  )

  -- After `requestRefresh` in a scope with a binding key and a workspace, the new request is the
  -- only one that is pending in its scope, and at most a hundred requests are kept.
  pub request_refresh_only :
      (keep
          (λ e. is_same_pending_scope e (normalize_scope binding workspace runtime))
          requested.requests
        ≡ next ∷ [])
      × (length requested.requests ≤ 100)
  request_refresh_only = (only, bound)
    where
      p : Request → Bool
      p e = is_same_pending_scope e (normalize_scope binding workspace runtime)

      only : keep p requested.requests ≡ next ∷ []
      only = rw (
        requests-requested,
        keep-append p (last_n 99 (keep (λ e. not (p e)) st.requests)) (next ∷ []),
        keep_none p (last_n 99 (keep (λ e. not (p e)) st.requests)) (
            any-last_n p 99 (keep (λ e. not (p e)) st.requests)
              (any-keep-not (λ e. not (p e)) p st.requests (λ e. refl))),
        next-pending,
      )

      bound : length requested.requests ≤ 100
      bound = rw requests-requested (
          omega (
            arith,
            length-append (last_n 99 (keep (λ e. not (p e)) st.requests)) (next ∷ []),
            length-last_n 99 (keep (λ e. not (p e)) st.requests),
          ))
