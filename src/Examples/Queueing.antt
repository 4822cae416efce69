-- ===== src/Examples/Queueing.antt =====
-- src/core/system-message-queue-store.js at a concrete message.
use mossbridge.Prelude.{
  Text, codes, ◌≡◌, refl, Bool, true, List, [], ◌∷◌, ◌++◌, some, keep, Order, sort_by, not, false,
  arith,
}
use mossbridge.Queues.System.{
  RawMessage, Message, File, le_message, normalize_system_message, normalized, save, enqueue,
  drain_for_account,
}
use mossbridge.Queues.System.Laws.{
  Represents, enqueue-Represents, drain-Represents, is_alive, of_account,
}
use mossbridge.Queues.System.Dispatch.{flush_pending_system_messages, refused}
use mossbridge.Queues.System.Dispatch.Kept.{IsKept, flush_pending-IsKept}
use mossbridge.Js.{str, other, normalize_text}
use mossbridge.Prelude.{none, trim, is_empty, or_text}

-- An order in which any two ids may stand either way.
abbrev any_order : Text → Text → Bool
any_order a b = true

any_order-Order : Order any_order
any_order-Order = record { total = λ a b h. refl; trans = λ a b c h k. refl }

abbrev raw : RawMessage
raw = record {
  id = str (codes " m1 ");
  account_id = str (codes "a");
  sender_id = str (codes "s");
  workspace_root = str (codes "/srv");
  text = str (codes "hello");
  kind = other;
  priority = other;
  title = other;
  metadata = codes "{}";
  created_at = none;
}

nothing_saved : Represents any_order any_order-Order (save any_order []) []
unfolding le_message
nothing_saved = record { written = refl; normal = tt; sorted = tt }

accepted : normalize_system_message 5 raw ≡ some (normalized 5 raw)
unfolding normalize_system_message normalized normalize_text trim is_empty or_text
accepted = refl

enqueue-Represents_example :
    ((enqueue any_order 5 (save any_order []) raw).1 ≡ some (normalized 5 raw))
    × Represents any_order any_order-Order
        (enqueue any_order 5 (save any_order []) raw).0
        (sort_by (le_message any_order) (keep (is_alive 5) [] ++ normalized 5 raw ∷ []))
enqueue-Represents_example =
    enqueue-Represents any_order any_order-Order 5 (save any_order []) [] raw (normalized 5 raw)
      nothing_saved accepted

abbrev one_queued : List Message
one_queued = sort_by (le_message any_order) (keep (is_alive 5) [] ++ normalized 5 raw ∷ [])

abbrev file : File
file = (enqueue any_order 5 (save any_order []) raw).0

drain-Represents_example :
    ((drain_for_account any_order 6 file (str (codes "a"))).1
      ≡ keep
          (of_account any_order any_order-Order (str (codes "a")))
          (keep (is_alive 6) one_queued))
    × Represents any_order any_order-Order
        (drain_for_account any_order 6 file (str (codes "a"))).0
        (keep
          (λ m. not (of_account any_order any_order-Order (str (codes "a")) m))
          (keep (is_alive 6) one_queued))
drain-Represents_example =
    drain-Represents any_order any_order-Order 6 file one_queued (str (codes "a"))
      enqueue-Represents_example.1

flush_pending-IsKept_example :
    IsKept any_order any_order-Order
      (λ i m. false)
      (λ i. 7)
      8
      (flush_pending_system_messages any_order (λ i m. false) (λ i. 7) 6 file (str (codes "a")))
      (keep (λ m. not (of_account any_order any_order-Order (str (codes "a")) m)) one_queued)
      (refused any_order
        (λ i m. false)
        (λ i. 7)
        0
        (keep
          (of_account any_order any_order-Order (str (codes "a")))
          (keep (is_alive 6) one_queued)))
flush_pending-IsKept_example =
    flush_pending-IsKept any_order any_order-Order (λ i m. false) (λ i. 7) 8 6 file one_queued
      (str (codes "a")) (omega arith) (λ i. omega arith) enqueue-Represents_example.1
