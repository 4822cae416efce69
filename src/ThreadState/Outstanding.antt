-- ===== src/ThreadState/Outstanding.antt =====
-- The approvals of a thread are a queue without repeats, whatever is requested and resolved.
use mathlib.Core.Bool.{◌&&◌}
use mossbridge.Prelude.{
  Text, eq_text, eq_text_iff, is_empty, List, [], ◌∷◌, ◌++◌, Option, none, some, Bool, true, false,
  not, if◌then◌else◌, ◌≡◌, refl, arith, Bool-cases, ◌∙◌, inl, inr, sym,
}
use mossbridge.ThreadState.{
  differ, place_approval, settle, Approval, ThreadState, Status, waiting_approval, id_of,
  normalize_approval_request_id, normalize_approval_payload, normalize_approval_queue,
  request_approval, resolve, trimmed_id,
}
use mossbridge.ThreadState.Approvals.{
  pending_ids, ids, member, without, Distinct, Named, id_of-normalize, ids-normalize, ids-queue,
  ids-keep, without_absent,
}

abbrev pub tail : List Text → List Text
tail [] = []
tail (x ∷ xs) = xs

abbrev pub outstanding_of : Option Approval → List Approval → List Text
outstanding_of p q = pending_ids p ++ ids q

abbrev pub outstanding : ThreadState → List Text
outstanding s = outstanding_of s.pending_approval s.pending_approvals

abbrev pub HasHead : Option Approval → List Approval → Type 0
HasHead none q = q ≡ []
HasHead (some _) q = Unit

-- Nothing is queued behind an empty place, every id is named, and none is there twice.
pub record IsQueued (s : ThreadState) : Type 0 where
  pub head : HasHead s.pending_approval s.pending_approvals
  pub named : Named (outstanding s)
  pub distinct : Distinct (outstanding s)

pub differ_none : (j : Text) → differ [] j ≡ false
unfolding differ is_empty
differ_none j = refl

named_differ :
    (i j : Text) → is_empty i ≡ false → is_empty j ≡ false → differ i j ≡ not (eq_text i j)
unfolding differ
named_differ i j hi hj = rw (hi, hj)

differ_nothing : (i : Text) → differ i [] ≡ false
unfolding differ is_empty
differ_nothing i = ground arith

some_differ : (i j : Text) → is_empty j ≡ false → differ i j ≡ not (is_empty i) && not (eq_text i j)
unfolding differ
some_differ i j h = rw h (ground arith)

-- What the request case leaves waiting, by its two branches.
request_place :
    (b : Bool) (s : ThreadState) (c a : Approval) (q : List Approval) {i : Text} {is : List Text}
    → id_of a ≡ i
    → ids q ≡ is
    → s.pending_approval ≡ some c
    → is_empty i ≡ false
    → b ≡ not (eq_text (id_of c) i)
    → outstanding (place_approval b s a q)
      ≡ (if member i (id_of c ∷ is) then id_of c ∷ is else (id_of c ∷ is) ++ i ∷ [])
unfolding place_approval
request_place true s c a q {i} {is} ei eq e n h =
    rw (e, ids-queue q a (rw ei n), ei, eq) (ground (arith))
request_place false s c a q {i} {is} ei eq e n h =
    rw (ei, eq) (ground (arith, eq_text_iff (id_of c) i))

outstanding-request_of :
    (s : ThreadState) (p : Option Approval) (a : Approval)
    → s.pending_approval ≡ p
    → HasHead p s.pending_approvals
    → Named (outstanding_of p s.pending_approvals)
    → is_empty (id_of a) ≡ false
    → outstanding (request_approval s a) ≡ (
        if member (id_of a) (outstanding_of p s.pending_approvals)
        then outstanding_of p s.pending_approvals
        else outstanding_of p s.pending_approvals ++ id_of a ∷ [])
unfolding request_approval
outstanding-request_of s none a e h n i =
    rw (e, h, differ_head, id_of-normalize a, ids-normalize [])
  where
    differ_head :
        differ (normalize_approval_request_id none) (id_of (normalize_approval_payload a)) ≡ false
    differ_head =
        unfold normalize_approval_request_id in differ_none (id_of (normalize_approval_payload a))
outstanding-request_of s (some b) a e h n i =
    request_place
      (differ (normalize_approval_request_id s.pending_approval)
        (id_of (normalize_approval_payload a)))
      (record s { status = waiting_approval }) b (normalize_approval_payload a)
      (normalize_approval_queue s.pending_approvals) (id_of-normalize a)
      (ids-normalize s.pending_approvals) e i
      (rw (e, id_of-normalize a) (named_differ (id_of b) (id_of a) n.0 i))

-- An approval request with an id, in a thread whose approvals are a queue, goes to the end of the
-- thread's outstanding ids, unless one with that id waits already.
pub outstanding-request :
    (s : ThreadState) (a : Approval)
    → IsQueued s
    → is_empty (id_of a) ≡ false
    → outstanding (request_approval s a)
      ≡ (if member (id_of a) (outstanding s) then outstanding s else outstanding s ++ id_of a ∷ [])
outstanding-request s a v i = outstanding-request_of s s.pending_approval a refl v.head v.named i

shown_next :
    (i c : Text) (xs : List Text)
    → Distinct (c ∷ xs)
    → false ≡ not (is_empty i) && not (eq_text i c)
    → xs ≡ (if is_empty i then xs else without i (c ∷ xs))
shown_next i c xs d h = elim (Bool-cases (eq_text i c)) [
  | inl e ↦ same ((eq_text_iff i c).0 e)
  | inr e ↦ ground arith
]
  where
    same : i ≡ c → xs ≡ (if is_empty i then xs else without i (c ∷ xs))
    same e = rw ((eq_text_iff c i).1 (sym e), without_absent i xs (rw e d.0)) (ground arith)

resolve_settle :
    (b : Bool) (s : ThreadState) (c : Approval) (q : List Approval) (i : Text) (st : Status)
    {is : List Text}
    → ids q ≡ is
    → s.pending_approval ≡ some c
    → Distinct (id_of c ∷ is)
    → b ≡ not (is_empty i) && not (eq_text i (id_of c))
    → outstanding (settle b s i q st) ≡ (if is_empty i then is else without i (id_of c ∷ is))
unfolding settle
resolve_settle true s c q i st eq e d h =
    rw (e, ids-keep i q, eq) (ground (arith, eq_text_iff (id_of c) i, eq_text_iff i (id_of c)))
resolve_settle false s c [] i st {is} eq e d h = eq ∙ shown_next i (id_of c) is d h
resolve_settle false s c (a ∷ q) i st {is} eq e d h = eq ∙ shown_next i (id_of c) is d h

outstanding-resolve_of :
    (s : ThreadState) (p : Option Approval) (st : Status) (r : Option Text)
    → s.pending_approval ≡ p
    → HasHead p s.pending_approvals
    → Named (outstanding_of p s.pending_approvals)
    → Distinct (outstanding_of p s.pending_approvals)
    → outstanding (resolve s st r) ≡ (
        if is_empty (trimmed_id r)
        then tail (outstanding_of p s.pending_approvals)
        else without (trimmed_id r) (outstanding_of p s.pending_approvals))
unfolding resolve
outstanding-resolve_of s none st r e h n d = rw (e, h) (no_approval (trimmed_id r))
  where
    no_approval :
        (i : Text)
        → outstanding (
            settle
              (differ i (normalize_approval_request_id none))
              (record s { pending_approval = none; pending_approvals = [] })
              i
              (normalize_approval_queue [])
              st)
          ≡ (if is_empty i then [] else [])
    no_approval i =
        unfold settle normalize_approval_queue normalize_approval_request_id in
        rw (differ_nothing i) (ground arith)
outstanding-resolve_of s (some c) st r e h n d =
    resolve_settle (differ (trimmed_id r) (normalize_approval_request_id s.pending_approval)) s c
      (normalize_approval_queue s.pending_approvals) (trimmed_id r) st
      (ids-normalize s.pending_approvals) e d (rw e (some_differ (trimmed_id r) (id_of c) n.0))

-- In a thread whose approvals are a queue, resolving takes the given id out of the outstanding ids,
-- or the first one if no id is given.
pub outstanding-resolve :
    (s : ThreadState) (st : Status) (r : Option Text)
    → IsQueued s
    → outstanding (resolve s st r) ≡ (
        if is_empty (trimmed_id r)
        then tail (outstanding s)
        else without (trimmed_id r) (outstanding s))
outstanding-resolve s st r v =
    outstanding-resolve_of s s.pending_approval st r refl v.head v.named v.distinct
