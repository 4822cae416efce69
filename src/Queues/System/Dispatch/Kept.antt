-- ===== src/Queues/System/Dispatch/Kept.antt =====
-- What a round of the dispatch keeps in the queue.
use mossbridge.Js.{Value}
use mossbridge.Prelude.{
  Option, insert_by, ℕ, ◌≤◌, ◌+◌, ◌≡◌, refl, ap, ◌∙◌, inl, inr, arith, Bool-cases, Bool, true,
  false, not, ◌&&◌, Text, List, [], ◌∷◌, ◌++◌, some, none, keep, length, suc, All, All-keep, Order,
  sort_by,
}
use mossbridge.Queues.System.{
  File, Message, saved, is_expired_system_message, le_message, enqueue, drain_for_account,
}
use mossbridge.Queues.System.Laws.{
  Represents, IsNormal, is_alive, of_account, enqueue-Represents, drain-Represents,
}
use mossbridge.Queues.System.Dispatcher.{requeue, drain_pending}
use mossbridge.Queues.System.Dispatch.{
  unless_thrown, next_after, dispatch_or_requeue, dispatch_each, flush_pending_system_messages,
  refused,
}

-- How many messages pass a test and have not expired.
abbrev pub count : (Message → Bool) → ℕ → List Message → ℕ
count q now ms = length (keep (λ m. is_alive now m && q m) ms)

alive_before :
    (now later : ℕ) (m : Message) → now ≤ later → is_alive later m ≡ true → is_alive now m ≡ true
unfolding is_expired_system_message
alive_before now later m h a = ground (arith, h, a)

count-alive :
    (q : Message → Bool) (now later : ℕ) (ms : List Message)
    → now ≤ later
    → count q later (keep (is_alive now) ms) ≡ count q later ms
count-alive q now later [] h = refl
count-alive q now later (m ∷ ms) h =
    ground (arith, count-alive q now later ms h, alive_before now later m h)

count-keep_alive :
    (q p : Message → Bool) (now later : ℕ) (ms : List Message)
    → now ≤ later
    → count q later (keep p (keep (is_alive now) ms)) ≡ count q later (keep p ms)
count-keep_alive q p now later [] h = refl
count-keep_alive q p now later (m ∷ ms) h =
    ground (arith, count-keep_alive q p now later ms h, alive_before now later m h)

count-append :
    (q : Message → Bool) (now : ℕ) (xs ys : List Message)
    → count q now (xs ++ ys) ≡ count q now xs + count q now ys
count-append q now [] ys = omega arith
count-append q now (x ∷ xs) ys = ground (arith, count-append q now xs ys)

count-insert_by :
    (q : Message → Bool) (now : ℕ) (le : Message → Message → Bool) (m : Message) (ms : List Message)
    → count q now (insert_by le m ms) ≡ count q now (m ∷ ms)
unfolding insert_by
count-insert_by q now le m [] = refl
count-insert_by q now le m (x ∷ ms) = ground (arith, count-insert_by q now le m ms)

count-sort_by :
    (q : Message → Bool) (now : ℕ) (le : Message → Message → Bool) (ms : List Message)
    → count q now (sort_by le ms) ≡ count q now ms
unfolding sort_by
count-sort_by q now le [] = refl
count-sort_by q now le (m ∷ ms) =
    count-insert_by q now le m (sort_by le ms) ∙ ground (arith, count-sort_by q now le ms)

module _ (le_id : Text → Text → Bool) (o : Order le_id) where
  module _ (dispatched : ℕ → Message → Bool) (clock : ℕ → ℕ) (later : ℕ) where
    -- The file stands for messages of which those that have not expired are as many, by any test, as
    -- in the two lists together.
    abbrev pub IsKept : File × Bool → List Message → List Message → Type 0
    IsKept r ms left =
        (r.1 ≡ true)
        × (after : List Message) × Represents le_id o r.0 after
        × ((q : Message → Bool) → count q later after ≡ count q later ms + count q later left)

    -- The messages after a message was requeued.
    requeued : ℕ → List Message → Message → List Message
    requeued now ms m = sort_by (le_message le_id) (keep (is_alive now) ms ++ m ∷ [])

    count-requeued :
        (q : Message → Bool) (now : ℕ) (ms : List Message) (m : Message)
        → now ≤ later
        → count q later (requeued now ms m) ≡ count q later ms + count q later (m ∷ [])
    unfolding requeued
    count-requeued q now ms m h =
        count-sort_by q later (le_message le_id) (keep (is_alive now) ms ++ m ∷ [])
        ∙ count-append q later (keep (is_alive now) ms) (m ∷ [])
        ∙ ap (λ n. n + count q later (m ∷ [])) (count-alive q now later ms h)

    -- A message that is dispatched leaves the file, and one that is refused is there once more.
    dispatch_or_requeue-IsKept :
        (i : ℕ) (file : File) (ms : List Message) (x : Message)
        → clock i ≤ later
        → Represents le_id o file ms
        → IsNormal x
        → IsKept
            (dispatch_or_requeue le_id dispatched clock i file x)
            ms
            (refused le_id dispatched clock i (x ∷ []))
    unfolding dispatch_or_requeue requeue requeued
    dispatch_or_requeue-IsKept i file ms x c v n = elim (Bool-cases (dispatched i x)) [
      | inl e ↦ rw e (refl, ms, v, λ q. omega arith)
      | inr e ↦
          let w =
            enqueue-Represents le_id o (clock i) file ms (saved x) x v (n.read_back (clock i)) in
          rw (e, surely (enqueue le_id (clock i) file (saved x)) w.0)
            (refl, requeued (clock i) ms x, w.1, λ q. count-requeued q (clock i) ms x c)
    ]
      where
        surely :
            (r : File × Option Message)
            → r.1 ≡ some x
            → unless_thrown le_id dispatched clock r ≡ (r.0, true)
        surely (f, none) h = cc
        surely (f, some y) h = refl

    count-refused :
        (q : Message → Bool) (i : ℕ) (x : Message) (xs : List Message)
        → count q later (refused le_id dispatched clock i (x ∷ xs))
          ≡ count q later (refused le_id dispatched clock i (x ∷ []))
            + count q later (refused le_id dispatched clock (suc i) xs)
    count-refused q i x xs = elim (Bool-cases (dispatched i x)) [
      | inl e ↦ rw e (omega arith)
      | inr e ↦ rw e (count-append q later (x ∷ []) (refused le_id dispatched clock (suc i) xs))
    ]

    continued :
        (r : File × Bool) (next : File → File × Bool)
        → r.1 ≡ true
        → next_after le_id dispatched clock next r ≡ next r.0
    continued (f, true) next h = refl
    continued (f, false) next h = cc

    dispatch_each-IsKept :
        (i : ℕ) (file : File) (ms xs : List Message)
        → ((j : ℕ) → clock j ≤ later)
        → Represents le_id o file ms
        → All IsNormal xs
        → IsKept
            (dispatch_each le_id dispatched clock i file xs)
            ms
            (refused le_id dispatched clock i xs)
    unfolding dispatch_each
    dispatch_each-IsKept i file ms [] c v n = (refl, ms, v, λ q. omega arith)
    dispatch_each-IsKept i file ms (x ∷ xs) c v n =
        let (ended, mid, w, k) = dispatch_or_requeue-IsKept i file ms x (c i) v n.0 in
        let (done, after, u, l) =
          dispatch_each-IsKept (suc i) (dispatch_or_requeue le_id dispatched clock i file x).0 mid
            xs c w n.1 in
        rw
          (continued (dispatch_or_requeue le_id dispatched clock i file x)
            (λ f. dispatch_each le_id dispatched clock (suc i) f xs) ended)
          (done, after, u, λ q. omega (arith, k q, l q, count-refused q i x xs))

    -- When the file stands for a list of messages, and no clock is later than the last, the round
    -- comes to its end, and the file then stands for messages of which those that have not expired
    -- at the last are, by any test, as many as those of other accounts and those that were handed
    -- over and refused, together. The comparison of ids is an order.
    pub flush_pending-IsKept :
        (now : ℕ) (file : File) (ms : List Message) (account : Value)
        → now ≤ later
        → ((i : ℕ) → clock i ≤ later)
        → Represents le_id o file ms
        → IsKept
            (flush_pending_system_messages le_id dispatched clock now file account)
            (keep (λ m. not (of_account le_id o account m)) ms)
            (refused le_id dispatched clock 0
              (keep (of_account le_id o account) (keep (is_alive now) ms)))
    unfolding flush_pending_system_messages drain_pending
    flush_pending-IsKept now file ms account h c v =
        let (handed, w) = drain-Represents le_id o now file ms account v in
        let (done, after, u, k) =
          dispatch_each-IsKept 0 (drain_for_account le_id now file account).0
            (keep (λ m. not (of_account le_id o account m)) (keep (is_alive now) ms))
            (keep (of_account le_id o account) (keep (is_alive now) ms)) c w
            (All-keep IsNormal (of_account le_id o account) (keep (is_alive now) ms)
              (All-keep IsNormal (is_alive now) ms v.normal)) in
        rw handed (
          done,
          after,
          u,
          λ q. omega (
            arith,
            k q,
            count-keep_alive q (λ m. not (of_account le_id o account m)) now later ms h,
          ),
        )
