-- ===== src/Queues/System/Dispatcher.antt =====
-- src/core/system-message-dispatcher.js: what the dispatcher asks of the queue, for the account that it
-- was made for. Its texts are not modelled.
use mossbridge.Js.{Value}
use mossbridge.Prelude.{ℕ, Text, Bool, List, Option}
use mossbridge.Queues.System.{
  File, Message, saved, enqueue, drain_for_account, has_pending_for_account,
}

module _ (le_id : Text → Text → Bool) where
  -- `hasPending`.
  unfoldable pub has_pending : ℕ → File → Value → File × Bool
  has_pending now file account = has_pending_for_account le_id now file account

  -- `drainPending`.
  unfoldable pub drain_pending : ℕ → File → Value → File × List Message
  drain_pending now file account = drain_for_account le_id now file account

  -- `requeue`: none is the error that `enqueue` throws.
  unfoldable pub requeue : ℕ → File → Message → File × Option Message
  requeue now file m = enqueue le_id now file (saved m)
