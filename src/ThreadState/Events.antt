-- ===== src/ThreadState/Events.antt =====
-- The invariant of the approvals over every run of the store, and what an event leaves alone.
use mossbridge.Prelude.{
  Text, is_empty, List, [], ◌∷◌, ◌++◌, Option, none, some, Bool, true, false, if◌then◌else◌, ◌≡◌,
  refl, arith, inl, inr, Bool-cases,
}
use mossbridge.ThreadState.{
  Approval, ThreadState, Status, Kind, Payload, approval_requested, id_of,
  normalize_approval_request_id, normalize_approval_payload, normalize_approval_queue,
  place_approval, request_approval, resolve, settle, differ, trimmed_id, apply_kind,
  waiting_approval,
}
use mossbridge.ThreadState.Approvals.{
  member, without, Distinct, Named, Distinct-snoc, Named-snoc, Distinct-without, Named-without,
}
use mossbridge.ThreadState.Outstanding.{
  outstanding, IsQueued, HasHead, tail, outstanding-request, outstanding-resolve, differ_none,
}

enqueued :
    (i : Text) (xs : List Text)
    → Named xs
    → Distinct xs
    → is_empty i ≡ false
    → Named (if member i xs then xs else xs ++ i ∷ [])
      × Distinct (if member i xs then xs else xs ++ i ∷ [])
enqueued i xs n d h = elim (Bool-cases (member i xs)) [
  | inl e ↦ rw e (n, d)
  | inr e ↦ rw e (Named-snoc i xs n h, Distinct-snoc i xs d e)
]

Named-tail : (xs : List Text) → Named xs → Named (tail xs)
Named-tail [] n = tt
Named-tail (x ∷ xs) n = n.1

Distinct-tail : (xs : List Text) → Distinct xs → Distinct (tail xs)
Distinct-tail [] n = tt
Distinct-tail (x ∷ xs) n = n.1

taken :
    (i : Text) (xs : List Text)
    → Named xs
    → Distinct xs
    → Named (if is_empty i then tail xs else without i xs)
      × Distinct (if is_empty i then tail xs else without i xs)
taken i xs n d = elim (Bool-cases (is_empty i)) [
  | inl e ↦ rw e (Named-tail xs n, Distinct-tail xs d)
  | inr e ↦ rw e (Named-without i xs n, Distinct-without i xs d)
]

head-request_of :
    (s : ThreadState) (p : Option Approval) (a : Approval)
    → s.pending_approval ≡ p
    → HasHead (request_approval s a).pending_approval (request_approval s a).pending_approvals
unfolding request_approval normalize_approval_request_id
head-request_of s none a e = rw (e, differ_none (id_of (normalize_approval_payload a))) tt
head-request_of s (some c) a e = placed (
    differ (normalize_approval_request_id s.pending_approval)
      (id_of (normalize_approval_payload a)))
  where
    placed :
        (b : Bool)
        → HasHead
            (place_approval b
              (record s { status = waiting_approval })
              (normalize_approval_payload a)
              (normalize_approval_queue s.pending_approvals)).pending_approval
            (place_approval b
              (record s { status = waiting_approval })
              (normalize_approval_payload a)
              (normalize_approval_queue s.pending_approvals)).pending_approvals
    placed true = rw e tt
    placed false = tt

pub request-IsQueued :
    (s : ThreadState) (a : Approval)
    → IsQueued s
    → is_empty (id_of a) ≡ false
    → IsQueued (request_approval s a)
request-IsQueued s a v i = record {
  head = head-request_of s s.pending_approval a refl;
  named =
      rw (outstanding-request s a v i) (enqueued (id_of a) (outstanding s) v.named v.distinct i).0;
  distinct =
      rw (outstanding-request s a v i) (enqueued (id_of a) (outstanding s) v.named v.distinct i).1;
}

head-settle :
    (b : Bool) (s : ThreadState) (i : Text) (q : List Approval) (st : Status)
    → (b ≡ true → (c : Approval) × (s.pending_approval ≡ some c))
    → HasHead (settle b s i q st).pending_approval (settle b s i q st).pending_approvals
unfolding settle
head-settle true s i q st h = rw (h refl).1 tt
head-settle false s i [] st h = refl
head-settle false s i (a ∷ q) st h = tt

differ_shown :
    (p : Option Approval) (i : Text)
    → differ i (normalize_approval_request_id p) ≡ true
    → (c : Approval) × (p ≡ some c)
unfolding differ normalize_approval_request_id is_empty
differ_shown none i h = absurd (ground arith)
differ_shown (some c) i h = (c, refl)

pub resolve-IsQueued :
    (s : ThreadState) (st : Status) (r : Option Text) → IsQueued s → IsQueued (resolve s st r)
resolve-IsQueued s st r v = record {
  head =
      unfold resolve in
      head-settle (differ (trimmed_id r) (normalize_approval_request_id s.pending_approval)) s
        (trimmed_id r) (normalize_approval_queue s.pending_approvals) st
        (differ_shown s.pending_approval (trimmed_id r));
  named =
      rw (outstanding-resolve s st r v) (taken (trimmed_id r) (outstanding s) v.named v.distinct).0;
  distinct =
      rw (outstanding-resolve s st r v) (taken (trimmed_id r) (outstanding s) v.named v.distinct).1;
}

-- An approval request carries an id.
abbrev pub HasId : Kind → Payload → Type 0
HasId approval_requested p = is_empty (id_of p.approval) ≡ false
HasId _ p = Unit

pub apply_kind-IsQueued :
    (k : Kind) (p : Payload) (s : ThreadState)
    → IsQueued s
    → HasId k p
    → IsQueued (apply_kind k p s)
unfolding apply_kind
apply_kind-IsQueued Kind.context_updated p s v h = v
apply_kind-IsQueued Kind.turn_started p s v h = record {
  head = v.head;
  named = v.named;
  distinct = v.distinct;
}
apply_kind-IsQueued Kind.reply_delta p s v h = record {
  head = v.head;
  named = v.named;
  distinct = v.distinct;
}
apply_kind-IsQueued Kind.reply_completed p s v h = record {
  head = v.head;
  named = v.named;
  distinct = v.distinct;
}
apply_kind-IsQueued approval_requested p s v h = request-IsQueued s p.approval v h
apply_kind-IsQueued Kind.turn_completed p s v h = record { head = refl; named = tt; distinct = tt }
apply_kind-IsQueued Kind.turn_failed p s v h = record { head = refl; named = tt; distinct = tt }
apply_kind-IsQueued Kind.unknown p s v h = v
