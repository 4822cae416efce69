-- ===== src/Queues/System/Dispatch.antt =====
-- `flushPendingSystemMessages` of src/core/app.js: the messages that wait are handed on, and those
-- that are refused wait again. What other code enqueues while the round waits is not in it.
pub mod Kept
use mossbridge.Js.{Value}
use mossbridge.Prelude.{
  ℕ, suc, Text, List, [], ◌∷◌, Option, none, some, Bool, true, false, if◌then◌else◌,
}
use mossbridge.Queues.System.{File, Message}
use mossbridge.Queues.System.Dispatcher.{drain_pending, requeue}

-- `dispatched i m` is what `dispatchSystemMessage` answers at the i-th call, false where it throws;
-- `clock i` is the time after it.
module _ (le_id : Text → Text → Bool) (dispatched : ℕ → Message → Bool) (clock : ℕ → ℕ) where
  -- The file after a requeue, and false where it threw.
  abbrev pub unless_thrown : File × Option Message → File × Bool
  unless_thrown (file, none) = (file, false)
  unless_thrown (file, some _) = (file, true)

  -- The loop's body.
  unfoldable pub dispatch_or_requeue : ℕ → File → Message → File × Bool
  unfolding requeue
  dispatch_or_requeue i file m =
      if dispatched i m then (file, true) else unless_thrown (requeue le_id (clock i) file m)

  -- What comes next; an error ends the round.
  abbrev pub next_after : (File → File × Bool) → File × Bool → File × Bool
  next_after next (file, false) = (file, false)
  next_after next (file, true) = next file

  -- The loop over the messages from the i-th on, and whether it came to its end.
  unfoldable pub dispatch_each : ℕ → File → List Message → File × Bool
  unfolding dispatch_or_requeue
  dispatch_each i file [] = (file, true)
  dispatch_each i file (m ∷ ms) =
      next_after (λ f. dispatch_each (suc i) f ms) (dispatch_or_requeue i file m)

  unfoldable pub flush_pending_system_messages : ℕ → File → Value → File × Bool
  unfolding drain_pending dispatch_each
  flush_pending_system_messages now file account =
      let (file', messages) = drain_pending le_id now file account in dispatch_each 0 file' messages

  -- The messages, from the i-th on, that are not dispatched.
  abbrev pub refused : ℕ → List Message → List Message
  refused i [] = []
  refused i (m ∷ ms) = if dispatched i m then refused (suc i) ms else m ∷ refused (suc i) ms
