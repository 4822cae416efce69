-- ===== src/Refresh/Early.antt =====
-- Reports of a start and an outcome that arrive before the request knows its successor, beside those
-- that come in order.
use mossbridge.Prelude.{
  or_else, Bool-cases, inl, inr, ℕ, Text, eq_text_refl, trim, is_empty, or_text, codes, List, [],
  ◌∷◌, ◌++◌, Option, none, some, Bool, true, false, ◌≡◌, refl, ap, arith, any, Found, split_last,
  split_last_here, split_last-none, split_first-none, split_first_here, last_n, last_n-snoc,
  any-append, any-last_n, ◌∙◌, ◌&&◌,
}
use mossbridge.Js.{str, normalize_text, normalize_text-normalize_text, Value}
use mossbridge.Refresh.Request.{
  is_first_turn_started, resolve_completion_grace_turns, Request, first_turn_started, is_applied,
  is_successor, Patch, spread, normalize_patch,
}
use mossbridge.Refresh.Store.{
  State, EarlyStart, EarlyOutcome, Outcome, update_where, last_updated, find_live_successor,
  is_live_successor, mark_first_turn_started, start_found, complete_from_runtime_outcome,
  outcome_found, finished_request, completed_request, failed_request, has_evidence, says_completed,
  says_present, failure_code_of, outcome_of, reports, consume_early_runtime_start,
  consume_early_runtime_outcome, record_early_runtime_start, record_early_runtime_outcome,
  has_applied, started_request, has_id, update_request, mark_successor_started,
}

update_none :
    (p : Request → Bool) (f : Request → Request) (es : List Request)
    → any p es ≡ false
    → (update_where p f es ≡ es) × (last_updated p f es ≡ none)
unfolding update_where last_updated
update_none p f [] a = (refl, refl)
update_none p f (e ∷ es) a = ground (arith, update_none p f es)

update_one :
    (p : Request → Bool) (f : Request → Request) (pre : List Request) (e : Request)
    (post : List Request)
    → any p pre ≡ false
    → p e ≡ true
    → any p post ≡ false
    → (update_where p f (pre ++ e ∷ post) ≡ pre ++ f e ∷ post)
      × (last_updated p f (pre ++ e ∷ post) ≡ some (f e))
unfolding update_where last_updated
update_one p f [] e post a h b =
    rw (h, (update_none p f post b).0, (update_none p f post b).1) (refl, refl)
update_one p f (x ∷ pre) e post a h b = ground (arith, update_one p f pre e post)

or_text-left : (a b : Text) → is_empty a ≡ false → or_text a b ≡ a
unfolding or_text is_empty
or_text-left [] b h = cc
or_text-left (c ∷ a) b h = refl

normal : (t : Text) → trim t ≡ t → normalize_text (str t) ≡ t
unfolding normalize_text
normal t h = h

-- An outcome that was kept says what it said when it came, if it had a status.
outcome_of_kept :
    (e : Request) (o : Outcome) (k : EarlyOutcome) (now : ℕ)
    → k.thread_id ≡ normalize_text o.thread_id
    → k.runtime_status ≡ normalize_text o.runtime_status
    → k.writeback_settled ≡ o.writeback_settled
    → k.assistant_outcome ≡ normalize_text o.assistant_outcome
    → finished_request e (outcome_of k) now ≡ finished_request e o now
outcome_of_kept e o k now a b c d =
    unfold finished_request completed_request failed_request has_evidence says_completed
      says_present failure_code_of outcome_of in
    rw (
      a,
      b,
      c,
      d,
      normalize_text-normalize_text o.thread_id,
      normalize_text-normalize_text o.runtime_status,
      normalize_text-normalize_text o.assistant_outcome,
    )

-- No report of the turn is among those that are kept.
pub record NoReport (t u : Text) (st : State) : Type 0 where
  pub no_start : any (λ s. reports t u s.thread_id s.turn_id) st.early_runtime_starts ≡ false
  pub no_outcome : any (λ s. reports t u s.thread_id s.turn_id) st.early_runtime_outcomes ≡ false

-- In order, each call at its own clock: the successor is known, its turn starts, its outcome comes.
abbrev pub in_order :
    State → Value → Patch → Text → Text → Outcome → Option ℕ → ℕ → ℕ → ℕ → State × Option Request
in_order st id p t u o told known_at started_at ended_at =
    complete_from_runtime_outcome
      (mark_first_turn_started (mark_successor_started st id p known_at).0 (str t) (str u) told
        started_at).0
      o ended_at

-- The reports come first, and the successor is known after them.
abbrev pub reports_first :
    State → Value → Patch → Text → Text → Outcome → Option ℕ → ℕ → ℕ → ℕ → State × Option Request
reports_first st id p t u o told started_at ended_at known_at =
    mark_successor_started
      (complete_from_runtime_outcome (mark_first_turn_started st (str t) (str u) told started_at).0
        o ended_at).0
      id p known_at

-- A request without the times that its start and its end record.
abbrev pub timeless : Request → Request
timeless e = record e {
  successor_started_at = none;
  first_turn_started_at = none;
  terminal_at = none;
  completed_at = none;
  grace_started_at = none;
}

-- Both end with the request in its place, the same but for its times, and return it.
pub record EndSame (pre post : List Request) (x y : State × Option Request) : Type 0 where
  pub left : Request
  pub right : Request
  pub same : timeless left ≡ timeless right
  pub left_requests : x.0.requests ≡ pre ++ left ∷ post
  pub right_requests : y.0.requests ≡ pre ++ right ∷ post
  pub left_result : x.1 ≡ some left
  pub right_result : y.1 ≡ some right

module _ (pre : List Request) (e : Request) (post : List Request) (t u : Text) (thread : trim t ≡ t)
    (turn : trim u ≡ u) (known : is_empty t ≡ false)
    (alone_before : any (is_live_successor t u) pre ≡ false)
    (alone_after : any (is_live_successor t u) post ≡ false) where
  -- A start, or an outcome, of the one request that awaits the turn.
  start_awaited :
      {a b : Text} (st : State) (x : Request) (told : Option ℕ) (now : ℕ)
      → a ≡ t
      → b ≡ u
      → st.requests ≡ pre ++ x ∷ post
      → is_live_successor t u x ≡ true
      → let x' = record x {
        status = first_turn_started;
        first_turn_started_at = some (or_else told now);
      } in
        mark_first_turn_started st (str a) (str b) told now
        ≡ (record st { requests = pre ++ x' ∷ post }, some x')
  unfolding mark_first_turn_started find_live_successor
  start_awaited st x told now ea eb r l = rw (
    ea,
    eb,
    normal t thread,
    normal u turn,
    known,
    r,
    split_last_here (is_live_successor t u) pre x post l alone_after,
  )

  outcome_awaited :
      (st : State) (x : Request) (o : Outcome) (now : ℕ)
      → st.requests ≡ pre ++ x ∷ post
      → is_live_successor t u x ≡ true
      → normalize_text o.thread_id ≡ t
      → normalize_text o.turn_id ≡ u
      → complete_from_runtime_outcome st o now ≡ (
        record st { requests = pre ++ finished_request x o now ∷ post },
        some (finished_request x o now),
      )
  unfolding complete_from_runtime_outcome find_live_successor
  outcome_awaited st x o now r l ht hu =
      rw (ht, hu, known, r, split_last_here (is_live_successor t u) pre x post l alone_after)

  applied-not_live : is_applied e.status ≡ true → is_live_successor t u e ≡ false
  unfolding is_live_successor is_applied is_successor
  applied-not_live a = ground arith

  none_awaits :
      is_applied e.status ≡ true → split_last (is_live_successor t u) (pre ++ e ∷ post) ≡ none
  none_awaits a = split_last-none (is_live_successor t u) (pre ++ e ∷ post) (
      rw (
        any-append (is_live_successor t u) pre (e ∷ post),
        alone_before,
        applied-not_live a,
        alone_after,
      ))

  some_applied : is_applied e.status ≡ true → has_applied (pre ++ e ∷ post) ≡ true
  unfolding has_applied
  some_applied a =
      rw (any-append (λ (x : Request). is_applied x.status) pre (e ∷ post), a) (ground arith)

  abbrev kept_start : ℕ → EarlyStart
  kept_start observed = record { thread_id = t; turn_id = u; observed_at = observed }

  abbrev kept_outcome : Outcome → ℕ → EarlyOutcome
  kept_outcome o now = record {
    thread_id = normalize_text o.thread_id;
    turn_id = normalize_text o.turn_id;
    runtime_status = or_text (normalize_text o.runtime_status) (codes "completed");
    writeback_settled = o.writeback_settled;
    assistant_outcome = normalize_text o.assistant_outcome;
    observed_at = now;
  }

  -- Before the successor is known nothing awaits the turn, and a report is kept.
  start_kept :
      (st : State) (told : Option ℕ) (now : ℕ)
      → st.requests ≡ pre ++ e ∷ post
      → is_applied e.status ≡ true
      → mark_first_turn_started st (str t) (str u) told now ≡ (
        record st {
          early_runtime_starts =
              last_n 49 st.early_runtime_starts ++ kept_start (or_else told now) ∷ [];
        },
        none,
      )
  unfolding mark_first_turn_started find_live_successor record_early_runtime_start start_found
  start_kept st told now r a =
      rw (normal t thread, normal u turn, known)
        (kept (split_last (is_live_successor t u) st.requests) (rw r (none_awaits a))
          (rw r (some_applied a)))
    where
      kept :
          (q : Option (Found Request))
          → q ≡ none
          → has_applied st.requests ≡ true
          → start_found st q t u told now ≡ (
            record st {
              early_runtime_starts =
                  last_n 49 st.early_runtime_starts ++ kept_start (or_else told now) ∷ [];
            },
            none,
          )
      kept none h b =
          rw (b, known)
            (ap (λ (ss : List EarlyStart). (record st { early_runtime_starts = ss }, none))
              (last_n-snoc 49 st.early_runtime_starts (kept_start (or_else told now))))
      kept (some f) h b = absurd (cc h)

  outcome_kept :
      (st : State) (o : Outcome) (now : ℕ)
      → st.requests ≡ pre ++ e ∷ post
      → is_applied e.status ≡ true
      → normalize_text o.thread_id ≡ t
      → normalize_text o.turn_id ≡ u
      → complete_from_runtime_outcome st o now ≡ (
        record st {
          early_runtime_outcomes = last_n 49 st.early_runtime_outcomes ++ kept_outcome o now ∷ [];
        },
        none,
      )
  unfolding complete_from_runtime_outcome find_live_successor record_early_runtime_outcome
      outcome_found
  outcome_kept st o now r a ht hu = rw nonempty (
      kept
        (split_last (is_live_successor (normalize_text o.thread_id) (normalize_text o.turn_id))
          st.requests)
        (rw (ht, hu, r) (none_awaits a)) (rw r (some_applied a)))
    where
      nonempty : is_empty (normalize_text o.thread_id) ≡ false
      nonempty = rw ht known

      kept :
          (q : Option (Found Request))
          → q ≡ none
          → has_applied st.requests ≡ true
          → outcome_found st q o now ≡ (
            record st {
              early_runtime_outcomes =
                  last_n 49 st.early_runtime_outcomes ++ kept_outcome o now ∷ [];
            },
            none,
          )
      kept none h b =
          rw (b, nonempty)
            (ap (λ (ss : List EarlyOutcome). (record st { early_runtime_outcomes = ss }, none))
              (last_n-snoc 49 st.early_runtime_outcomes (kept_outcome o now)))
      kept (some f) h b = absurd (cc h)

  consume_no_start :
      (st : State) {a b : Text}
      → a ≡ t
      → b ≡ u
      → any (λ s. reports t u s.thread_id s.turn_id) st.early_runtime_starts ≡ false
      → consume_early_runtime_start st a b ≡ (st, none)
  unfolding consume_early_runtime_start
  consume_no_start st ea eb h = rw (
    ea,
    eb,
    thread,
    turn,
    split_first-none (λ (s : EarlyStart). reports t u s.thread_id s.turn_id) st.early_runtime_starts
        h,
  )

  consume_no_outcome :
      (st : State) {a b : Text}
      → a ≡ t
      → b ≡ u
      → any (λ s. reports t u s.thread_id s.turn_id) st.early_runtime_outcomes ≡ false
      → consume_early_runtime_outcome st a b ≡ (st, none)
  unfolding consume_early_runtime_outcome
  consume_no_outcome st ea eb h = rw (
    ea,
    eb,
    thread,
    turn,
    split_first-none (λ (s : EarlyOutcome). reports t u s.thread_id s.turn_id)
        st.early_runtime_outcomes h,
  )

  reports_self : reports t u t u ≡ true
  unfolding reports
  reports_self = rw (thread, turn, eq_text_refl t, eq_text_refl u) (ground arith)

  consume_kept_start :
      {a b : Text} (st : State) (ss : List EarlyStart) (observed : ℕ)
      → a ≡ t
      → b ≡ u
      → st.early_runtime_starts ≡ ss ++ kept_start observed ∷ []
      → any (λ s. reports t u s.thread_id s.turn_id) ss ≡ false
      → consume_early_runtime_start st a b
        ≡ (record st { early_runtime_starts = ss ++ [] }, some (kept_start observed))
  unfolding consume_early_runtime_start
  consume_kept_start st ss observed ea eb q h = rw (
    ea,
    eb,
    thread,
    turn,
    q,
    split_first_here (λ (s : EarlyStart). reports t u s.thread_id s.turn_id) ss
        (kept_start observed) [] reports_self h,
  )

  consume_kept_outcome :
      {a b : Text} (st : State) (ss : List EarlyOutcome) (o : Outcome) (now : ℕ)
      → a ≡ t
      → b ≡ u
      → st.early_runtime_outcomes ≡ ss ++ kept_outcome o now ∷ []
      → any (λ s. reports t u s.thread_id s.turn_id) ss ≡ false
      → normalize_text o.thread_id ≡ t
      → normalize_text o.turn_id ≡ u
      → consume_early_runtime_outcome st a b
        ≡ (record st { early_runtime_outcomes = ss ++ [] }, some (kept_outcome o now))
  unfolding consume_early_runtime_outcome
  consume_kept_outcome st ss o now ea eb q h ht hu = rw (
    ea,
    eb,
    thread,
    turn,
    q,
    split_first_here (λ (s : EarlyOutcome). reports t u s.thread_id s.turn_id) ss
        (kept_outcome o now) [] (rw (ht, hu) reports_self) h,
  )

  live_of :
      (x : Request)
      → is_successor x.status ≡ true
      → x.new_thread_id ≡ t
      → x.new_turn_id ≡ u
      → is_live_successor t u x ≡ true
  unfolding is_live_successor
  live_of x s a b = rw (s, a, b, thread, turn, eq_text_refl t, eq_text_refl u) (ground arith)

  module _ (p : Patch) (names_thread : p.new_thread_id ≡ some t)
      (names_turn : p.new_turn_id ≡ some u) where
    started_thread : (now : ℕ) → (started_request p now e).new_thread_id ≡ t
    unfolding started_request spread normalize_patch
    started_thread now = rw (names_thread, thread, thread)

    started_turn : (now : ℕ) → (started_request p now e).new_turn_id ≡ u
    unfolding started_request spread normalize_patch
    started_turn now = rw (names_turn, turn, turn)

    started-live : (now : ℕ) → is_live_successor t u (started_request p now e) ≡ true
    unfolding started_request is_successor
    started-live now =
        live_of (started_request p now e) refl (started_thread now) (started_turn now)

    first_turn : ℕ → ℕ → Request
    first_turn observed now = record (started_request p now e) {
      status = first_turn_started;
      first_turn_started_at = some observed;
    }

    first_turn-live : (observed now : ℕ) → is_live_successor t u (first_turn observed now) ≡ true
    unfolding first_turn is_successor
    first_turn-live observed now =
        live_of (first_turn observed now) refl (started_thread now) (started_turn now)

    module _ (id : Value) (picks : is_empty (normalize_text id) ≡ false)
        (picked : has_id (normalize_text id) e ≡ true)
        (other_before : any (has_id (normalize_text id)) pre ≡ false)
        (other_after : any (has_id (normalize_text id)) post ≡ false) (o : Outcome)
        (of_thread : normalize_text o.thread_id ≡ t) (of_turn : normalize_text o.turn_id ≡ u) where
      updated :
          (st : State) (now : ℕ)
          → st.requests ≡ pre ++ e ∷ post
          → update_request st id (started_request p now) ≡ (
            record st { requests = pre ++ started_request p now e ∷ post },
            some (started_request p now e),
          )
      unfolding update_request
      updated st now r = rw (picks, r, one.0, one.1)
        where
          one :
              (update_where (has_id (normalize_text id)) (started_request p now) (pre ++ e ∷ post)
                ≡ pre ++ started_request p now e ∷ post)
              × (last_updated (has_id (normalize_text id)) (started_request p now) (pre ++ e ∷ post)
                  ≡ some (started_request p now e))
          one =
              update_one (has_id (normalize_text id)) (started_request p now) pre e post
                other_before picked other_after

      abbrev settled : ℕ → ℕ → ℕ → Request
      settled observed known_at ended_at =
          finished_request (first_turn observed known_at) o ended_at

      settled-timeless :
          (a b c a' b' c' : ℕ) → timeless (settled a b c) ≡ timeless (settled a' b' c')
      unfolding finished_request completed_request failed_request has_evidence failure_code_of
          first_turn started_request is_first_turn_started resolve_completion_grace_turns
      settled-timeless a b c a' b' c' =
          elim (Bool-cases (says_completed o && o.writeback_settled && says_present o)) [
            | inl h ↦ rw h refl
            | inr h ↦ rw h refl
          ]

      successor_alone :
          (st : State) (now : ℕ)
          → st.requests ≡ pre ++ e ∷ post
          → NoReport t u st
          → mark_successor_started st id p now ≡ (
            record st { requests = pre ++ started_request p now e ∷ post },
            some (started_request p now e),
          )
      unfolding mark_successor_started
      successor_alone st now r h = rw (
        updated st now r,
        consume_no_start (record st { requests = pre ++ started_request p now e ∷ post })
            (started_thread now) (started_turn now) h.no_start,
        consume_no_outcome (record st { requests = pre ++ started_request p now e ∷ post })
            (started_thread now) (started_turn now) h.no_outcome,
      )

      in_order_result :
          (st : State) (told : Option ℕ) (known_at started_at ended_at : ℕ)
          → st.requests ≡ pre ++ e ∷ post
          → NoReport t u st
          → let x = settled (or_else told started_at) known_at ended_at in
            in_order st id p t u o told known_at started_at ended_at
            ≡ (record st { requests = pre ++ x ∷ post }, some x)
      unfolding first_turn
      in_order_result st told known_at started_at ended_at r h =
          let x = started_request p known_at e in
          let y = first_turn (or_else told started_at) known_at in
          rw
            (
              successor_alone st known_at r h,
              start_awaited (record st { requests = pre ++ x ∷ post }) x told started_at refl refl
                  refl (started-live known_at),
            )
            (outcome_awaited (record st { requests = pre ++ y ∷ post }) y o ended_at refl
              (first_turn-live (or_else told started_at) known_at) of_thread of_turn)

      kept_outcome-same :
          (observed now earlier : ℕ)
          → is_empty (normalize_text o.runtime_status) ≡ false
          → finished_request (first_turn observed now) (outcome_of (kept_outcome o earlier)) now
            ≡ settled observed now now
      kept_outcome-same observed now earlier n =
          outcome_of_kept (first_turn observed now) o (kept_outcome o earlier) now refl
            (or_text-left (normalize_text o.runtime_status) (codes "completed") n) refl refl

      -- The successor becomes known to a state that keeps its start and its outcome.
      successor_reported :
          (st : State) (ss : List EarlyStart) (os : List EarlyOutcome) (observed now earlier : ℕ)
          → st.requests ≡ pre ++ e ∷ post
          → st.early_runtime_starts ≡ ss ++ kept_start observed ∷ []
          → st.early_runtime_outcomes ≡ os ++ kept_outcome o earlier ∷ []
          → any (λ s. reports t u s.thread_id s.turn_id) ss ≡ false
          → any (λ s. reports t u s.thread_id s.turn_id) os ≡ false
          → is_empty (normalize_text o.runtime_status) ≡ false
          → mark_successor_started st id p now ≡ (
            record {
              requests = pre ++ settled observed now now ∷ post;
              early_runtime_starts = ss ++ [];
              early_runtime_outcomes = os ++ [];
            },
            some (settled observed now now),
          )
      unfolding mark_successor_started first_turn
      successor_reported st ss os observed now earlier r qs qo hs ho n =
          rw
            (
              updated st now r,
              consume_kept_start (record st { requests = pre ++ started_request p now e ∷ post }) ss
                  observed (started_thread now) (started_turn now) qs hs,
              start_awaited
                  (record st {
                    requests = pre ++ started_request p now e ∷ post;
                    early_runtime_starts = ss ++ [];
                  })
                  (started_request p now e) (some observed) now (started_thread now)
                  (started_turn now) refl (started-live now),
              consume_kept_outcome
                  (record st {
                    requests = pre ++ first_turn observed now ∷ post;
                    early_runtime_starts = ss ++ [];
                  })
                  os o earlier (started_thread now) (started_turn now) qo ho of_thread of_turn,
            )
            (rw (
              outcome_awaited
                  (record {
                    requests = pre ++ first_turn observed now ∷ post;
                    early_runtime_starts = ss ++ [];
                    early_runtime_outcomes = os ++ [];
                  })
                  (first_turn observed now) (outcome_of (kept_outcome o earlier)) now refl
                  (first_turn-live observed now) (said_thread ∙ of_thread) (said_turn ∙ of_turn),
              kept_outcome-same observed now earlier n,
            ))
        where
          said_thread :
              normalize_text (outcome_of (kept_outcome o earlier)).thread_id
              ≡ normalize_text o.thread_id
          said_thread = unfold outcome_of in normalize_text-normalize_text o.thread_id

          said_turn :
              normalize_text (outcome_of (kept_outcome o earlier)).turn_id
              ≡ normalize_text o.turn_id
          said_turn = unfold outcome_of in normalize_text-normalize_text o.turn_id

      -- Whether the successor's id comes before or after the reports of its turn's start and
      -- outcome, and whatever the clocks of the three calls are in either order and whether or not
      -- the start is reported with its time, the requests end the same and the last call returns
      -- the request, the same in both orders but for its recorded times: when the successor and the
      -- first turn started, when it ended and completed, and when the grace began. The request is
      -- applied and the only one with its id, the patch names the thread and turn of the reports,
      -- no other request awaits that turn and no older report of it is kept, and the outcome names
      -- a runtime status. The thread's and the turn's ids are trimmed, and those of the thread and
      -- of the request are not empty.
      pub reports_first-eq-in_order :
          (st : State) (told : Option ℕ) (a b c a' b' c' : ℕ)
          → st.requests ≡ pre ++ e ∷ post
          → is_applied e.status ≡ true
          → NoReport t u st
          → is_empty (normalize_text o.runtime_status) ≡ false
          → EndSame pre post
              (reports_first st id p t u o told a b c)
              (in_order st id p t u o told a' b' c')
      reports_first-eq-in_order st told a b c a' b' c' r q h n = record {
        left = settled (or_else told a) c c;
        right = settled (or_else told b') a' c';
        same = settled-timeless (or_else told a) c c (or_else told b') a' c';
        left_requests = ap (λ (x : State × Option Request). x.0.requests) first;
        right_requests = ap (λ (x : State × Option Request). x.0.requests) second;
        left_result = ap (λ (x : State × Option Request). x.1) first;
        right_result = ap (λ (x : State × Option Request). x.1) second;
      }
        where
          starts : List EarlyStart
          starts = last_n 49 st.early_runtime_starts

          outcomes : List EarlyOutcome
          outcomes = last_n 49 st.early_runtime_outcomes

          start : EarlyStart
          start = kept_start (or_else told a)

          second :
              let x = settled (or_else told b') a' c' in
              in_order st id p t u o told a' b' c'
              ≡ (record st { requests = pre ++ x ∷ post }, some x)
          second = in_order_result st told a' b' c' r h

          first :
              let x = settled (or_else told a) c c in
              reports_first st id p t u o told a b c ≡ (
                record {
                  requests = pre ++ x ∷ post;
                  early_runtime_starts = starts ++ [];
                  early_runtime_outcomes = outcomes ++ [];
                },
                some x,
              )
          first =
              rw
                (
                  start_kept st told a r q,
                  outcome_kept (record st { early_runtime_starts = starts ++ start ∷ [] }) o b r q
                      of_thread of_turn,
                )
                (successor_reported
                  (record st {
                    early_runtime_starts = starts ++ start ∷ [];
                    early_runtime_outcomes = outcomes ++ kept_outcome o b ∷ [];
                  })
                  starts outcomes (or_else told a) c b r refl refl
                  (any-last_n (λ (s : EarlyStart). reports t u s.thread_id s.turn_id) 49
                    st.early_runtime_starts h.no_start)
                  (any-last_n (λ (s : EarlyOutcome). reports t u s.thread_id s.turn_id) 49
                    st.early_runtime_outcomes h.no_outcome)
                  n)
