-- ===== src/Examples/Replies.antt =====
-- src/core/deferred-system-reply-store.js with one reply.
use mossbridge.Prelude.{
  Text, codes, ◌≡◌, refl, Bool, true, false, List, [], some, none, keep, length, trim, is_empty,
  Order, ◌+◌,
}
use mossbridge.Prelude.{arith}
use mossbridge.Js.{str, other, normalize_text}
use mossbridge.Queues.Deferred.{
  RawReply, Reply, normalized, lacks_field, normalize_deferred_system_reply, placed,
  find_coalescable_reply, enqueue, drain_for_sender_with_expiry,
}
use mossbridge.Queues.Deferred.Slots.{IsSingle}
use mossbridge.Queues.Deferred.Laws.{
  IsStored, after_enqueue, is_drained, is_dropped, is_left, enqueue-IsStored, drain-IsStored,
}

-- An order in which any two ids may stand either way.
abbrev any_order : Text → Text → Bool
any_order a b = true

any_order-Order : Order any_order
any_order-Order = record { total = λ a b h. refl; trans = λ a b c h k. refl }

abbrev raw : RawReply
raw = record {
  id = str (codes "d1");
  account_id = str (codes "a");
  sender_id = str (codes "s");
  thread_id = str (codes "t1");
  text = str (codes "hello");
  kind = str (codes "system_reply");
  dedupe_key = str (codes "k");
  created_at = some 1;
  failed_at = some 2;
  last_error = other;
  defer_reason = other;
  prefix_delivered = false;
  prefix_delivered_at = none;
  context_token_age_ms = none;
  causal_message_id = other;
  redispatch_generation = none;
  replay_policy = other;
}

nothing-IsSingle : IsSingle []
nothing-IsSingle = record { at_most_one = λ k n. omega arith }

nothing-IsStored : IsStored any_order any_order-Order [] []
nothing-IsStored = record {
  held = record { written = refl; normal = tt; sorted = tt };
  normal = tt;
  single = nothing-IsSingle;
}

accepted : normalize_deferred_system_reply 5 raw ≡ some (normalized 5 raw)
unfolding normalize_deferred_system_reply normalized lacks_field normalize_text trim is_empty
accepted = refl

abbrev reply : Reply
reply = normalized 5 raw

enqueue-IsStored_example :
    ((enqueue any_order 5 [] raw).1
      ≡ some (placed any_order [] (find_coalescable_reply [] reply) reply).1)
    × IsStored any_order any_order-Order
        (enqueue any_order 5 [] raw).0
        (after_enqueue any_order any_order-Order [] reply)
enqueue-IsStored_example =
    enqueue-IsStored any_order any_order-Order 5 [] [] raw reply nothing-IsStored accepted

abbrev file : List RawReply
file = (enqueue any_order 5 [] raw).0

abbrev one : List Reply
one = after_enqueue any_order any_order-Order [] reply

drain-IsStored_example :
    let result =
      drain_for_sender_with_expiry any_order 6 file
        (str (codes "a"))
        (str (codes "s"))
        (some 100)
        other in
    (result.1
      ≡ keep
          (is_drained any_order any_order-Order 6
            (str (codes "a"))
            (str (codes "s"))
            (some 100)
            other)
          one)
    × (result.2
        ≡ keep
            (is_dropped any_order any_order-Order 6
              (str (codes "a"))
              (str (codes "s"))
              (some 100)
              other)
            one)
    × IsStored any_order any_order-Order result.0 (
        keep
          (is_left any_order any_order-Order 6 (str (codes "a")) (str (codes "s")) (some 100) other)
          one)
    × (length result.1
          + length result.2
          + length (
              keep
                (is_left any_order any_order-Order 6
                  (str (codes "a"))
                  (str (codes "s"))
                  (some 100)
                  other)
                one)
        ≡ length one)
drain-IsStored_example =
    drain-IsStored any_order any_order-Order 6 (str (codes "a")) (str (codes "s")) (some 100) other
      file one enqueue-IsStored_example.1
