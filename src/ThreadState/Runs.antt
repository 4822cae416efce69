-- ===== src/ThreadState/Runs.antt =====
-- Every run of the store keeps each thread's approvals a queue; an event changes its own thread only.
use mossbridge.Prelude.{
  ℕ, Text, eq_text, is_empty, get, put, Option, some, Bool, true, false, if◌then◌else◌, ◌≡◌, refl,
  arith, inl, inr, Bool-cases, Option-cases, get-put, ◌⊎◌, subst,
}
use mossbridge.Js.{Value, normalize_text}
use mossbridge.Prelude.{◌∙◌}
use mossbridge.ThreadState.{
  is_context_update, normalize_runtime_id, new, get_thread_state, ThreadState, Status, Store, Event,
  Payload, apply_runtime_event, thread_state, create_empty_thread_state, put_thread,
  resolve_approval, mark_stale_turn_recovered, mark_runtime_thread_unhealthy, mark,
  apply_thread_event, update_context, raw_text, is_context_update, normalize_runtime_id,
}
use mossbridge.ThreadState.Outstanding.{IsQueued}
use mossbridge.ThreadState.Events.{HasId, apply_kind-IsQueued, resolve-IsQueued}

-- Every known thread's approvals are a queue without repeats.
pub record IsOrderly (st : Store) : Type 0 where
  pub at : (t : Text) (s : ThreadState) → get t st.state_by_thread ≡ some s → IsQueued s

put-IsOrderly :
    (st : Store) (t : Text) (s : ThreadState)
    → IsOrderly st
    → IsQueued s
    → IsOrderly (put_thread st t s)
put-IsOrderly st t s v q = record {
  at = λ j x h. found j x (get-put t j s st.state_by_thread) h (Bool-cases (eq_text t j));
}
  where
    found :
        (j : Text) (x : ThreadState)
        → get j (put t s st.state_by_thread)
          ≡ (if eq_text t j then some s else get j st.state_by_thread)
        → get j (put t s st.state_by_thread) ≡ some x
        → (eq_text t j ≡ true) ⊎ (eq_text t j ≡ false)
        → IsQueued x
    found j x e h (inl same) = subst IsQueued (ground arith) q
    found j x e h (inr other) = v.at j x (ground arith)

empty-IsQueued : (t : Text) (now : ℕ) → IsQueued (create_empty_thread_state t now)
unfolding create_empty_thread_state
empty-IsQueued t now = record { head = refl; named = tt; distinct = tt }

thread_state-IsQueued :
    (st : Store) (t : Text) (now : ℕ) → IsOrderly st → IsQueued (thread_state st t now)
unfolding thread_state
thread_state-IsQueued st t now v = elim (Option-cases (get t st.state_by_thread)) [
  | inl e ↦ rw e (empty-IsQueued t now)
  | inr (s, e) ↦ rw e (v.at t s e)
]

-- The fields that the invariant reads are the same.
retimed : {s : ThreadState} (now : ℕ) → IsQueued s → IsQueued (record s { updated_at = now })
retimed now v = record { head = v.head; named = v.named; distinct = v.distinct }

either : (b : Bool) {x y : Store} → IsOrderly x → IsOrderly y → IsOrderly (if b then x else y)
either true h k = h
either false h k = k

update_context-IsOrderly :
    (f : Value → Text) (st : Store) (p : Payload) (now : ℕ)
    → IsOrderly st
    → IsOrderly (update_context f st p now)
unfolding update_context
update_context-IsOrderly f st p now v = either (is_empty (normalize_text p.thread_id)) noted (
    put-IsOrderly _ _ _ noted
      (with_context (thread_state-IsQueued _ (normalize_text p.thread_id) now noted)))
  where
    noted : IsOrderly (
        if is_empty (f p.runtime_id) then st else record st {
          latest_context =
              put (f p.runtime_id) (record { payload = p; updated_at = now }) st.latest_context;
        })
    noted = either (is_empty (f p.runtime_id)) v (record { at = v.at })

    with_context :
        {s : ThreadState}
        → IsQueued s
        → IsQueued (record s {
          context = some (record { payload = p; updated_at = now });
          updated_at = now;
        })
    with_context q = record { head = q.head; named = q.named; distinct = q.distinct }

apply_thread_event-IsOrderly :
    (st : Store) (e : Event) (now : ℕ)
    → IsOrderly st
    → HasId e.kind e.payload
    → IsOrderly (apply_thread_event st e now)
unfolding apply_thread_event
apply_thread_event-IsOrderly st e now v h = either (is_empty (raw_text e.payload.thread_id)) v (
    put-IsOrderly st _ _ v (
      apply_kind-IsQueued e.kind e.payload _
        (retimed now (thread_state-IsQueued st (raw_text e.payload.thread_id) now v)) h))

apply_runtime_event-IsOrderly :
    (lower : Text → Text) (st : Store) (e : Event) (now : ℕ)
    → IsOrderly st
    → HasId e.kind e.payload
    → IsOrderly (apply_runtime_event lower st e now)
unfolding apply_runtime_event
apply_runtime_event-IsOrderly lower st e now v h =
    either _ (update_context-IsOrderly (normalize_runtime_id lower) st e.payload now v)
      (apply_thread_event-IsOrderly st e now v h)

resolve_approval-IsOrderly :
    (st : Store) (t : Text) (status : Status) (r : Option Text) (now : ℕ)
    → IsOrderly st
    → IsOrderly (resolve_approval st t status r now).0
unfolding resolve_approval
resolve_approval-IsOrderly st t status r now v = elim (Option-cases (get t st.state_by_thread)) [
  | inl e ↦ rw e v
  | inr (s, e) ↦
      rw e (put-IsOrderly st t _ v (retimed now (resolve-IsQueued s status r (v.at t s e))))
]

mark-IsOrderly :
    (status : Status) (default : Text) (st : Store) (thread turn : Value) (reason : Text) (now : ℕ)
    → IsOrderly st
    → IsOrderly (mark status default st thread turn reason now).0
unfolding mark
mark-IsOrderly status default st thread turn reason now v =
    elim (Bool-cases (is_empty (normalize_text thread))) [
      | inl e ↦ rw e v
      | inr e ↦ rw e (put-IsOrderly st _ _ v (record { head = refl; named = tt; distinct = tt }))
    ]

-- The calls that change the store, each with the clock that it reads.
pub data Step (lower : Text → Text) (st : Store) : Store → Type 0 where
  event :
      (e : Event) (now : ℕ)
      → HasId e.kind e.payload
      → Step lower st (apply_runtime_event lower st e now)
  resolved :
      (t : Text) (status : Status) (r : Option Text) (now : ℕ)
      → Step lower st (resolve_approval st t status r now).0
  recovered :
      (t turn : Value) (reason : Text) (now : ℕ)
      → Step lower st (mark_stale_turn_recovered st t turn reason now).0
  unhealthy :
      (t turn : Value) (reason : Text) (now : ℕ)
      → Step lower st (mark_runtime_thread_unhealthy st t turn reason now).0

pub data Reach (lower : Text → Text) (st : Store) : Store → Type 0 where
  here : Reach lower st st
  next : {u v : Store} → Reach lower st u → Step lower u v → Reach lower st v

Step-IsOrderly : {lower : Text → Text} {st u : Store} → Step lower st u → IsOrderly st → IsOrderly u
unfolding mark_stale_turn_recovered mark_runtime_thread_unhealthy
Step-IsOrderly {lower} {st} (event e now h) v = apply_runtime_event-IsOrderly lower st e now v h
Step-IsOrderly {lower} {st} (resolved t status r now) v =
    resolve_approval-IsOrderly st t status r now v
Step-IsOrderly {lower} {st} (recovered t turn reason now) v =
    mark-IsOrderly _ _ st t turn reason now v
Step-IsOrderly {lower} {st} (unhealthy t turn reason now) v =
    mark-IsOrderly _ _ st t turn reason now v

-- From an orderly store, every sequence of runtime events (whose approval requests carry an id),
-- resolutions and recoveries leads to an orderly store: the approvals of every thread are a queue
-- of distinct ids that shows its head.
pub Reach-IsOrderly :
    {lower : Text → Text} {st u : Store} → IsOrderly st → Reach lower st u → IsOrderly u
Reach-IsOrderly v here = v
Reach-IsOrderly v (next r s) = Step-IsOrderly s (Reach-IsOrderly v r)

pub new-IsOrderly : IsOrderly new
unfolding new get
new-IsOrderly = record { at = λ t s h. cc }

abbrev at_thread : Text → Store → Option ThreadState
at_thread t st = get t st.state_by_thread

-- Both branches of a test leave a thread as it was.
either_same :
    (t : Text) (b : Bool) (x y z : Store)
    → at_thread t x ≡ at_thread t z
    → at_thread t y ≡ at_thread t z
    → at_thread t (if b then x else y) ≡ at_thread t z
either_same t true x y z h k = h
either_same t false x y z h k = k

put_other :
    (t j : Text) (st : Store) (s : ThreadState)
    → eq_text j t ≡ false
    → at_thread t (put_thread st j s) ≡ at_thread t st
put_other t j st s h = get-put j t s st.state_by_thread ∙ rw h

-- The store with the latest context of the event's runtime.
abbrev noted_store : (Text → Text) → Store → Payload → ℕ → Store
noted_store lower st p now =
    if is_empty (normalize_runtime_id lower p.runtime_id) then st else record st {
      latest_context =
          put (normalize_runtime_id lower p.runtime_id) (record { payload = p; updated_at = now })
            st.latest_context;
    }

noted_same :
    (lower : Text → Text) (t : Text) (st : Store) (p : Payload) (now : ℕ)
    → at_thread t (noted_store lower st p now) ≡ at_thread t st
noted_same lower t st p now =
    either_same t (is_empty (normalize_runtime_id lower p.runtime_id)) st
      (record st {
        latest_context =
            put (normalize_runtime_id lower p.runtime_id) (record { payload = p; updated_at = now })
              st.latest_context;
      })
      st refl refl

-- An event leaves the state of every thread but its own, told apart both as its id came and
-- trimmed.
pub apply_runtime_event_other :
    (lower : Text → Text) (st : Store) (e : Event) (now : ℕ) (t : Text)
    → eq_text (raw_text e.payload.thread_id) t ≡ false
    → eq_text (normalize_text e.payload.thread_id) t ≡ false
    → get_thread_state (apply_runtime_event lower st e now) t ≡ get_thread_state st t
unfolding apply_runtime_event apply_thread_event update_context get_thread_state
apply_runtime_event_other lower st e now t h k =
    either_same t (is_context_update e.kind) _ _ st
      (either_same t (is_empty (normalize_text e.payload.thread_id)) _ _ st noted (
        put_other t (normalize_text e.payload.thread_id) (noted_store lower st e.payload now) _ k
        ∙ noted))
      (either_same t (is_empty (raw_text e.payload.thread_id)) _ _ st refl
        (put_other t (raw_text e.payload.thread_id) st _ h))
  where
    noted : at_thread t (noted_store lower st e.payload now) ≡ at_thread t st
    noted = noted_same lower t st e.payload now
