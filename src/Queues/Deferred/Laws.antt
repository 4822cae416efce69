-- ===== src/Queues/Deferred/Laws.antt =====
-- The store of deferred replies: what an enqueue, a drain and a discard leave in it.
use mossbridge.Prelude.{length-append}
use mossbridge.Queues.Shape.{keep_same_length}
use mossbridge.Prelude.{
  ℕ, Text, is_empty, List, [], ◌∷◌, ◌++◌, Option, none, some, Bool, not, ◌&&◌, ◌||◌, ◌≡◌, refl, sym,
  ap, subst, inl, inr, Bool-cases, arith, keep, length, All, All-keep, All-append, ◌+◌, Found,
  split_first-place, split_first-any, Order, sort_by,
}
use mossbridge.Js.{Value, normalize_text}
use mossbridge.Queues.Shape.{part-keep, by_time-order, All-sort_by, keep-not-none}
use mossbridge.Queues.Stored.{Holds, load_sorted-Holds, keep-Holds, sort_by-Holds}
use mossbridge.Queues.Deferred.{
  RawReply, Reply, normalize_deferred_system_reply, saved, merged, same_slot,
  find_coalescable_reply, le_reply, load, save, placed, pushed, enqueue, unless_empty, is_of_sender,
  waits_for_cause, triage, is_expired_deferred_system_reply, drain_for_sender_with_expiry,
  is_superseded, discard_for_superseded_run,
}
use mossbridge.Queues.Deferred.Fields.{
  IsNormal, IsNormal-saved, normalize-IsNormal, merged-IsNormal,
}
use mossbridge.Queues.Deferred.Slots.{
  IsSingle, added-IsSingle, replaced-IsSingle, All-replaced, All-entry, keep-IsSingle,
  sorted-IsSingle,
}

module _ (le_id : Text → Text → Bool) (o : Order le_id) where
  -- The file holds these replies, in order, with at most one to a slot.
  pub record IsStored (file : List RawReply) (rs : List Reply) : Type 0 where
    pub held : Holds normalize_deferred_system_reply saved (le_reply le_id) file rs
    pub normal : All IsNormal rs
    pub single : IsSingle rs

  order : Order (le_reply le_id)
  unfolding le_reply
  order = by_time-order (λ r. r.created_at) (λ r. r.id) le_id o

  loaded :
      (now : ℕ) (file : List RawReply) (rs : List Reply)
      → IsStored file rs
      → load le_id now file ≡ rs
  unfolding load
  loaded now file rs v =
      load_sorted-Holds normalize_deferred_system_reply saved (le_reply le_id) now file rs v.held

  All-read_back :
      (rs : List Reply)
      → All IsNormal rs
      → All (λ r. (now : ℕ) → normalize_deferred_system_reply now (saved r) ≡ some r) rs
  All-read_back [] h = tt
  All-read_back (r ∷ rs) h = (λ now. IsNormal-saved now r h.0, All-read_back rs h.1)

  -- Replies in any order, sorted and written.
  sorted-IsStored :
      (rs : List Reply)
      → All IsNormal rs
      → IsSingle rs
      → IsStored (save le_id (sort_by (le_reply le_id) rs)) (sort_by (le_reply le_id) rs)
  sorted-IsStored rs n v = record {
    held =
        sort_by-Holds normalize_deferred_system_reply saved (le_reply le_id) order rs
          (All-read_back rs n);
    normal = All-sort_by IsNormal (le_reply le_id) rs n;
    single = sorted-IsSingle (le_reply le_id) rs v;
  }

  keep-IsStored :
      (p : Reply → Bool) (file : List RawReply) (rs : List Reply)
      → IsStored file rs
      → IsStored (save le_id (keep p rs)) (keep p rs)
  keep-IsStored p file rs v = record {
    held = keep-Holds normalize_deferred_system_reply saved (le_reply le_id) p file rs v.held;
    normal = All-keep IsNormal p rs v.normal;
    single = keep-IsSingle p rs v.single;
  }

  -- `enqueue` places the reply
  abbrev pub after_enqueue : List Reply → Reply → List Reply
  after_enqueue rs r = sort_by (le_reply le_id) (placed le_id rs (find_coalescable_reply rs r) r).0

  placed-found :
      (rs : List Reply) (r : Reply) (q : Option (Found Reply))
      → find_coalescable_reply rs r ≡ q
      → All IsNormal rs
      → IsSingle rs
      → IsNormal r
      → All IsNormal (placed le_id rs q r).0 × IsSingle (placed le_id rs q r).0
  unfolding find_coalescable_reply placed
  placed-found rs r none e n v m = (
    All-append IsNormal rs (r ∷ []) n (m, tt),
    added-IsSingle rs r v (λ k. split_first-any (same_slot r) rs (rw k at e)),
  )
  placed-found rs r (some f) e n v m = elim (Bool-cases (is_empty r.dedupe_key)) [
    | inl k ↦ absurd (cc (rw k at e))
    | inr k ↦
        let p = split_first-place (same_slot r) rs f (rw k at e) in
        let n' = subst (All IsNormal) p n in
        (
          All-replaced f (merged f.entry r) (merged-IsNormal f.entry r (All-entry f n') m) n',
          replaced-IsSingle f r (subst IsSingle p v),
        )
  ]

  -- When the file stands for a sorted list of replies with at most one to a slot (account, sender,
  -- thread, kind and a key that is not empty), and a reply is accepted, `enqueue` returns the
  -- reply, or what it was merged into, and the file again stands for such a list: the old one with
  -- the reply added or merged. The comparison of ids is an order.
  pub enqueue-IsStored :
      (now : ℕ) (file : List RawReply) (rs : List Reply) (raw : RawReply) (r : Reply)
      → IsStored file rs
      → normalize_deferred_system_reply now raw ≡ some r
      → ((enqueue le_id now file raw).1 ≡ some (placed le_id rs (find_coalescable_reply rs r) r).1)
        × IsStored (enqueue le_id now file raw).0 (after_enqueue rs r)
  unfolding enqueue pushed
  enqueue-IsStored now file rs raw r v h =
      let (n, s) =
        placed-found rs r (find_coalescable_reply rs r) refl v.normal v.single
          (normalize-IsNormal now raw r h) in
      rw (loaded now file rs v, h)
        (refl, sorted-IsStored (placed le_id rs (find_coalescable_reply rs r) r).0 n s)

  triage_lem :
      (mine old waits : Reply → Bool) (rs : List Reply)
      → triage le_id mine old waits rs ≡ (
        keep (λ r. mine r && not (old r) && not (waits r)) rs,
        keep (λ r. mine r && old r) rs,
        keep (λ r. not (mine r) || not (old r) && waits r) rs,
      )
  unfolding triage
  triage_lem mine old waits [] = refl
  triage_lem mine old waits (r ∷ rs) =
      rw (triage_lem mine old waits rs) (elim (Bool-cases (mine r)) [
        | inl a ↦ elim (Bool-cases (old r)) [
          | inl b ↦ rw (a, b) refl
          | inr b ↦ elim (Bool-cases (waits r)) [
            | inl c ↦ rw (a, b, c) refl
            | inr c ↦ rw (a, b, c) refl
          ]
        ]
        | inr a ↦ rw a refl
      ])

  -- Every reply goes to one of the three parts.
  three_parts :
      (mine old waits : Reply → Bool) (rs : List Reply)
      → length (keep (λ r. mine r && not (old r) && not (waits r)) rs)
          + length (keep (λ r. mine r && old r) rs)
          + length (keep (λ r. not (mine r) || not (old r) && waits r) rs)
        ≡ length rs
  three_parts mine old waits [] = omega arith
  three_parts mine old waits (r ∷ rs) = ground (arith, three_parts mine old waits rs)

  written-IsStored :
      (taken : List Reply) (p : Reply → Bool) (file : List RawReply) (rs : List Reply)
      → IsStored file rs
      → (taken ≡ [] → keep p rs ≡ rs)
      → IsStored (unless_empty le_id taken (keep p rs) file) (keep p rs)
  unfolding unless_empty
  written-IsStored [] p file rs v h = subst (IsStored file) (sym (h refl)) v
  written-IsStored (r ∷ taken) p file rs v h = keep-IsStored p file rs v

  -- The parts of the replies that a drain makes.
  module _ (now : ℕ) (account sender : Value) (max_age : Option ℕ) (causal : Value) where
    abbrev pub is_mine : Reply → Bool
    is_mine = is_of_sender le_id (normalize_text account) (normalize_text sender)

    abbrev pub is_old : Reply → Bool
    is_old = is_expired_deferred_system_reply now max_age

    abbrev pub is_waiting : Reply → Bool
    is_waiting = waits_for_cause le_id (normalize_text causal)

    abbrev pub is_drained : Reply → Bool
    is_drained r = is_mine r && not (is_old r) && not (is_waiting r)

    abbrev pub is_dropped : Reply → Bool
    is_dropped r = is_mine r && is_old r

    abbrev pub is_left : Reply → Bool
    is_left r = not (is_mine r) || not (is_old r) && is_waiting r

    none_taken :
        (rs : List Reply) → keep is_drained rs ++ keep is_dropped rs ≡ [] → keep is_left rs ≡ rs
    none_taken rs h = keep_all_left rs (three_parts is_mine is_old is_waiting rs) (ap length h)
      where
        keep_all_left :
            (rs : List Reply)
            → length (keep is_drained rs) + length (keep is_dropped rs) + length (keep is_left rs)
              ≡ length rs
            → length (keep is_drained rs ++ keep is_dropped rs) ≡ 0
            → keep is_left rs ≡ rs
        keep_all_left rs p q =
            keep_same_length is_left rs
              (omega (arith, p, q, length-append (keep is_drained rs) (keep is_dropped rs)))

    -- When the file stands for a list of replies, a drain returns the sender's replies that are
    -- neither expired nor wait for another causal message, and its expired ones, each in order; the
    -- file then stands for the rest, and every reply is in exactly one of the three as their
    -- lengths add up. The comparison of ids is an order.
    pub drain-IsStored :
        (file : List RawReply) (rs : List Reply)
        → IsStored file rs
        → let result = drain_for_sender_with_expiry le_id now file account sender max_age causal in
          (result.1 ≡ keep is_drained rs)
          × (result.2 ≡ keep is_dropped rs)
          × IsStored result.0 (keep is_left rs)
          × (length result.1 + length result.2 + length (keep is_left rs) ≡ length rs)
    unfolding drain_for_sender_with_expiry
    drain-IsStored file rs v =
        rw (loaded now file rs v, triage_lem is_mine is_old is_waiting rs)
          (
            refl,
            refl,
            written-IsStored (keep is_drained rs ++ keep is_dropped rs) is_left file rs v
                (none_taken rs),
            three_parts is_mine is_old is_waiting rs,
          )

  -- When the file stands for a list of replies, `discardForSupersededRun` returns the replies with
  -- the key, or those of the thread if no key is given, and the file stands for the others. The
  -- comparison of ids is an order.
  pub discard-IsStored :
      (now : ℕ) (file : List RawReply) (rs : List Reply) (thread key : Value)
      → IsStored file rs
      → let superseded = is_superseded le_id (normalize_text thread) (normalize_text key) in
        ((discard_for_superseded_run le_id now file thread key).1 ≡ keep superseded rs)
        × IsStored
            (discard_for_superseded_run le_id now file thread key).0
            (keep (λ r. not (superseded r)) rs)
  unfolding discard_for_superseded_run
  discard-IsStored now file rs thread key v =
      let p = is_superseded le_id (normalize_text thread) (normalize_text key) in
      rw (loaded now file rs v, part-keep p rs)
        (refl, written-IsStored (keep p rs) (λ r. not (p r)) file rs v (keep-not-none p rs))
