-- ===== src/Refresh/Outcome.antt =====
-- What the outcome of a runtime turn does to the request that waits for it.
use mossbridge.Prelude.{
  ℕ, ◌+◌, Text, is_empty, List, ◌∷◌, ◌++◌, Option, none, some, true, false, ◌≡◌, refl, ap, arith,
  inl, inr, Bool-cases, Found, replaced, split_last-IsLast, length, keep, keep-append,
  length-append, sym, ◌∙◌,
}
use mossbridge.Js.{normalize_text}
use mossbridge.Refresh.Request.{
  Request, is_completed, is_first_turn_started, is_successor, resolve_completion_grace_turns,
}
use mossbridge.Refresh.Store.{
  State, Outcome, find_live_successor, is_live_successor, complete_from_runtime_outcome,
  outcome_found, finished_request, completed_request, failed_request, has_evidence, says_completed,
  says_present,
}

-- The request that an outcome is of.
abbrev pub awaiting : State → Outcome → Option (Found Request)
awaiting st o =
    find_live_successor st.requests (normalize_text o.thread_id) (normalize_text o.turn_id)

-- What a result of the operation says: the outcome was of a request under way, which it finished.
pub record Finishes (st : State) (o : Outcome) (now : ℕ) (r : Request) : Type 0 where
  pub found : Found Request
  pub awaited : awaiting st o ≡ some found
  pub result : r ≡ finished_request found.entry o now
  pub saved : (complete_from_runtime_outcome st o now).0.requests ≡ replaced found r

outcome_found-result :
    (st : State) (q : Option (Found Request)) (o : Outcome) (now : ℕ) (r : Request)
    → (outcome_found st q o now).1 ≡ some r
    → (f : Found Request) × (q ≡ some f)
      × (r ≡ finished_request f.entry o now)
      × ((outcome_found st q o now).0.requests ≡ replaced f r)
unfolding outcome_found
outcome_found-result st none o now r h = absurd (ground arith)
outcome_found-result st (some f) o now r h =
    (f, refl, cc h, ap (λ (x : Request). replaced f x) (cc h))

pub complete-Finishes :
    (st : State) (o : Outcome) (now : ℕ) (r : Request)
    → (complete_from_runtime_outcome st o now).1 ≡ some r
    → Finishes st o now r
unfolding complete_from_runtime_outcome
complete-Finishes st o now r h = elim (Bool-cases (is_empty (normalize_text o.thread_id))) [
  | inl b ↦ absurd (cc (rw b at h))
  | inr b ↦
      let (f, q, e, s) = outcome_found-result st (awaiting st o) o now r (rw b at h) in
      record { found = f; awaited = q; result = e; saved = rw b s }
]

-- If an outcome completes a request, then it was the one that the outcome's thread and turn await,
-- its first turn had started, the runtime reports completion, the writeback has settled and the
-- assistant's outcome is present; it then has its turns of grace, on the outcome's thread.
pub complete_only_with_evidence :
    (st : State) (o : Outcome) (now : ℕ) (r : Request)
    → (complete_from_runtime_outcome st o now).1 ≡ some r
    → is_completed r.status ≡ true
    → (f : Found Request) × (awaiting st o ≡ some f)
      × (is_first_turn_started f.entry.status ≡ true)
      × (says_completed o ≡ true)
      × (o.writeback_settled ≡ true)
      × (says_present o ≡ true)
      × (r.grace_thread_id ≡ normalize_text o.thread_id)
      × (r.grace_remaining ≡ resolve_completion_grace_turns f.entry)
complete_only_with_evidence st o now r h c =
    let v = complete-Finishes st o now r h in
    let (a, b, d, e, g, i) =
      parts v.found.entry (ap (λ (x : Request). is_completed x.status) (sym v.result) ∙ c) in
    (
      v.found,
      v.awaited,
      a,
      b,
      d,
      e,
      ap (λ (x : Request). x.grace_thread_id) v.result ∙ g,
      ap (λ (x : Request). x.grace_remaining) v.result ∙ i,
    )
  where
    parts :
        (e : Request)
        → is_completed (finished_request e o now).status ≡ true
        → (is_first_turn_started e.status ≡ true)
          × (says_completed o ≡ true)
          × (o.writeback_settled ≡ true)
          × (says_present o ≡ true)
          × ((finished_request e o now).grace_thread_id ≡ normalize_text o.thread_id)
          × ((finished_request e o now).grace_remaining ≡ resolve_completion_grace_turns e)
    parts e k =
        unfold finished_request has_evidence failed_request completed_request is_completed in
        ground arith

abbrev pub live : List Request → List Request
live es = keep (λ e. is_successor e.status) es

finished-not_live :
    (e : Request) (o : Outcome) (now : ℕ) → is_successor (finished_request e o now).status ≡ false
unfolding finished_request failed_request completed_request is_successor
finished-not_live e o now = ground arith

live_entry :
    (t u : Text) (e : Request) → is_live_successor t u e ≡ true → is_successor e.status ≡ true
unfolding is_live_successor
live_entry t u e h = ground arith

-- When `completeFromRuntimeOutcome` has a result, completed or failed, exactly one request fewer is
-- under way.
pub complete_settles_one :
    (st : State) (o : Outcome) (now : ℕ) (r : Request)
    → (complete_from_runtime_outcome st o now).1 ≡ some r
    → length (live (complete_from_runtime_outcome st o now).0.requests) + 1
      ≡ length (live st.requests)
complete_settles_one st o now r h = counted (complete-Finishes st o now r h)
  where
    one_less :
        (b a : List Request) (x y : Request)
        → is_successor x.status ≡ false
        → is_successor y.status ≡ true
        → length (live (b ++ x ∷ a)) + 1 ≡ length (live (b ++ y ∷ a))
    one_less b a x y hx hy =
        rw
          (
            keep-append (λ e. is_successor e.status) b (x ∷ a),
            keep-append (λ e. is_successor e.status) b (y ∷ a),
            hx,
            hy,
          )
          (omega (arith, length-append (live b) (live a), length-append (live b) (y ∷ live a)))

    counted :
        Finishes st o now r
        → length (live (complete_from_runtime_outcome st o now).0.requests) + 1
          ≡ length (live st.requests)
    counted v =
        let l =
          split_last-IsLast
            (is_live_successor (normalize_text o.thread_id) (normalize_text o.turn_id)) st.requests
            v.found (unfold find_live_successor in v.awaited) in
        rw (v.saved, l.place)
          (one_less v.found.before v.found.after r v.found.entry
            (ap (λ (x : Request). is_successor x.status) v.result
              ∙ finished-not_live v.found.entry o now)
            (live_entry (normalize_text o.thread_id) (normalize_text o.turn_id) v.found.entry
              l.passes))
