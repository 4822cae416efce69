-- ===== src/Refresh/Startup.antt =====
-- What a restart makes of the requests, and of a retry that it interrupts.
use mossbridge.Prelude.{
  map, ℕ, is_empty, List, [], ◌∷◌, Option, none, some, Bool, true, false, ◌&&◌, ◌||◌, if◌then◌else◌,
  keep, All, ltb, ◌==◌, ◌≡◌, refl, ap, arith, inl, inr, Bool-cases,
}
use mossbridge.Js.{Value, normalize_text}
use mossbridge.Refresh.Request.{
  Request, Run, Patch, is_completed, is_pending, is_in_flight, is_successor,
}
use mossbridge.Refresh.Store.{
  last_updated, State, update_where, is_interrupted, interrupted_request, reconcile_startup,
  requeued_request, requeue_after_pre_start_failure, requeues, saved_if_updated,
}

interrupted-settled : (now : ℕ) (e : Request) → is_interrupted (interrupted_request now e) ≡ false
unfolding is_interrupted interrupted_request is_in_flight is_successor is_pending
interrupted-settled now e = refl

All-update_where :
    (now : ℕ) (es : List Request)
    → All (λ e. is_interrupted e ≡ false) (update_where is_interrupted (interrupted_request now) es)
unfolding update_where
All-update_where now [] = tt
All-update_where now (e ∷ es) = elim (Bool-cases (is_interrupted e)) [
  | inl h ↦ rw h (interrupted-settled now e, All-update_where now es)
  | inr h ↦ rw h (h, All-update_where now es)
]

-- After a restart no request is under way, and none that is pending is a retry.
pub reconcile_startup-settled :
    (st : State) (now : ℕ)
    → All
        (λ e.
          (is_in_flight e.status ≡ false)
          × (is_pending e.status && ltb 0 e.redispatch_generation ≡ false))
        (reconcile_startup st now).requests
unfolding reconcile_startup
reconcile_startup-settled st now =
    apart (update_where is_interrupted (interrupted_request now) st.requests)
      (All-update_where now st.requests)
  where
    parts :
        (e : Request)
        → is_interrupted e ≡ false
        → (is_in_flight e.status ≡ false)
          × (is_pending e.status && ltb 0 e.redispatch_generation ≡ false)
    parts e h = unfold is_interrupted in ground arith

    apart :
        (es : List Request)
        → All (λ e. is_interrupted e ≡ false) es
        → All
            (λ e.
              (is_in_flight e.status ≡ false)
              × (is_pending e.status && ltb 0 e.redispatch_generation ≡ false))
            es
    apart es =
        elim es
          as (λ es.
            All (λ e. is_interrupted e ≡ false) es
            → All
                (λ e.
                  (is_in_flight e.status ≡ false)
                  × (is_pending e.status && ltb 0 e.redispatch_generation ≡ false))
                es) [ [] ↦ λ h. tt | e ∷ (r → ih) ↦ λ h. (parts e h.0, ih h.1) ]

update_where_settled :
    (f : Request → Request) (es : List Request)
    → All (λ e. is_interrupted e ≡ false) es
    → update_where is_interrupted f es ≡ es
unfolding update_where
update_where_settled f [] h = refl
update_where_settled f (e ∷ es) h = rw (h.0, update_where_settled f es h.1)

-- A second restart, at any time, changes nothing.
pub reconcile_startup-reconcile_startup :
    (st : State) (now later : ℕ)
    → reconcile_startup (reconcile_startup st now) later ≡ reconcile_startup st now
unfolding reconcile_startup
reconcile_startup-reconcile_startup st now later =
    ap (λ (es : List Request). record st { requests = es })
      (update_where_settled (interrupted_request later)
        (update_where is_interrupted (interrupted_request now) st.requests)
        (All-update_where now st.requests))

-- A request that a restart has to keep: completed, or pending for the first time.
abbrev pub is_kept : Request → Bool
is_kept e = is_completed e.status || is_pending e.status && e.redispatch_generation == 0

interrupted-not_kept : (e : Request) → is_interrupted e ≡ true → is_kept e ≡ false
unfolding is_interrupted is_in_flight is_successor is_completed is_pending
interrupted-not_kept e h = ground arith

interrupted_request-not_kept : (now : ℕ) (e : Request) → is_kept (interrupted_request now e) ≡ false
unfolding interrupted_request is_completed is_pending
interrupted_request-not_kept now e = refl

-- A restart keeps the completed requests and those pending for the first time, as they are and in
-- their order, and makes no new ones of either kind.
pub keep-reconcile_startup :
    (st : State) (now : ℕ)
    → keep is_kept (reconcile_startup st now).requests ≡ keep is_kept st.requests
unfolding reconcile_startup
keep-reconcile_startup st now = kept st.requests
  where
    one :
        (e : Request) (r s : List Request)
        → keep is_kept r ≡ keep is_kept s
        → keep is_kept ((if is_interrupted e then interrupted_request now e else e) ∷ r)
          ≡ keep is_kept (e ∷ s)
    one e r s h = elim (Bool-cases (is_interrupted e)) [
      | inl i ↦ rw (i, interrupted_request-not_kept now e, interrupted-not_kept e i) h
      | inr i ↦ rw (i, h)
    ]

    kept :
        (es : List Request)
        → keep is_kept (update_where is_interrupted (interrupted_request now) es) ≡ keep is_kept es
    kept es =
        elim es
          as (λ es.
            keep is_kept (update_where is_interrupted (interrupted_request now) es)
            ≡ keep is_kept es) [
              | [] ↦ unfold update_where in refl
              | e ∷ (r → ih) ↦
                  unfold update_where in
                  one e (update_where is_interrupted (interrupted_request now) r) r ih
            ]

requeued-interrupted :
    (p : Patch) (run : Run) (now : ℕ) (e : Request)
    → is_interrupted (requeued_request p run now e) ≡ true
unfolding is_interrupted requeued_request is_in_flight is_successor is_pending
requeued-interrupted p run now e = ground arith

-- What a restart makes of an entry that a requeue may have changed before it.
abbrev pub restarted : (Request → Bool) → (Request → Request) → ℕ → Request → Request
restarted picked requeue later e =
    if picked e
    then interrupted_request later (requeue e)
    else if is_interrupted e
    then interrupted_request later e
    else e

restart-update_where :
    (q : Request → Bool) (f : Request → Request) (later : ℕ) (es : List Request)
    → ((e : Request) → is_interrupted (f e) ≡ true)
    → update_where is_interrupted (interrupted_request later) (update_where q f es)
      ≡ map (restarted q f later) es
unfolding update_where
restart-update_where q f later [] h = refl
restart-update_where q f later (e ∷ es) h = elim (Bool-cases (q e)) [
  | inl y ↦ rw (y, h e, restart-update_where q f later es h)
  | inr n ↦ rw (n, restart-update_where q f later es h)
]

last_updated-none :
    (q : Request → Bool) (f : Request → Request) (es : List Request)
    → last_updated q f es ≡ none
    → update_where q f es ≡ es
unfolding last_updated update_where
last_updated-none q f [] h = refl
last_updated-none q f (e ∷ es) h = ground (arith, last_updated-none q f es)

-- A retry that was queued under an id and then hit by a restart fails closed: in the requests after
-- the requeue and the restart, each entry that the requeue changed is failed by the restart, and
-- every other entry is as after the restart alone.
pub reconcile_startup-requeue :
    (st : State) (id : Value) (p : Patch) (run : Run) (now later : ℕ)
    → is_empty (normalize_text id) ≡ false
    → (reconcile_startup (requeue_after_pre_start_failure st id p run now).0 later).requests
      ≡ map
          (restarted (requeues (normalize_text id)) (requeued_request p run now) later)
          st.requests
unfolding reconcile_startup requeue_after_pre_start_failure
reconcile_startup-requeue st id p run now later h =
    rw
      (
        h,
        ← restart-update_where (requeues (normalize_text id)) (requeued_request p run now) later
            st.requests (requeued-interrupted p run now),
      )
      (saved (last_updated (requeues (normalize_text id)) (requeued_request p run now) st.requests)
        refl)
  where
    saved :
        (o : Option Request)
        → last_updated (requeues (normalize_text id)) (requeued_request p run now) st.requests ≡ o
        → update_where is_interrupted
            (interrupted_request later)
            (saved_if_updated st
              (record st {
                requests =
                    update_where
                      (requeues (normalize_text id))
                      (requeued_request p run now)
                      st.requests;
              })
              o).0.requests
          ≡ update_where is_interrupted
              (interrupted_request later)
              (update_where (requeues (normalize_text id)) (requeued_request p run now) st.requests)
    saved none e = rw (
        last_updated-none (requeues (normalize_text id)) (requeued_request p run now) st.requests e)
    saved (some x) e = refl
