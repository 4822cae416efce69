-- ===== src/Delivery/Flushed.antt =====
-- `flushNow` for a plain reply: what is delivered, what is deferred, and what is left.
use mossbridge.Delivery.State.{Run}
use mossbridge.Delivery.Failures.{Failure}
use mossbridge.Delivery.Actions.{Reader}
use mossbridge.Delivery.Sending.{Services, DeferredCall, defer_system_reply}
use mossbridge.Delivery.Retry.{Flow}
use mossbridge.Delivery.Collect.{
  Pending, collect_pending_reply_deliveries, build_pending_delivery_batch_text,
}
use mossbridge.Delivery.Steps.{texts}
use mossbridge.Delivery.Progress.{all_texts, prefix_after, Sends, Stopped, Progress}
use mossbridge.Prelude.{keep}
use mossbridge.Prelude.{◌≡◌, Bool, true, false, Option, none, some, List, [], ◌∷◌, ◌++◌, keep, Text}
use mossbridge.Queues.Deferred.{plain_reply}

-- Whether the hook takes the text of what is left, asked after a failure; without one it is not asked.
abbrev pub IsTaken : Services → Flow → Text → List Pending → Option Failure → Bool → Type 0
IsTaken s stop prefix left none taken = taken ≡ false
IsTaken s stop prefix left (some e) taken =
    (defer_system_reply s stop.run (build_pending_delivery_batch_text left prefix) e plain_reply
      stop.wire).1
    ≡ taken

-- What a flush leaves: the deliveries after the first failure are still pending, or the hook has taken
-- them as one text and nothing is pending.
pub data Leftover (s : Services) (r : Reader) (runtime_id : Text) (force : Bool) (prefix : Text)
    (left : List Pending) (o : Option Failure) (f stop g : Flow) : Type 0 where
  still_pending :
      IsTaken s stop prefix left o false
      → g ≡ stop
      → g.wire.deferred ≡ f.wire.deferred
      → collect_pending_reply_deliveries r runtime_id g.run force ≡ left
      → Leftover s r runtime_id force prefix left o f stop g
  deferred_as_one :
      (c : DeferredCall)
      → IsTaken s stop prefix left o true
      → c.text ≡ build_pending_delivery_batch_text left prefix
      → g.wire.deferred ≡ f.wire.deferred ++ c ∷ []
      → collect_pending_reply_deliveries r runtime_id g.run force ≡ []
      → Leftover s r runtime_id force prefix left o f stop g

module _ (s : Services) (r : Reader) (runtime_id : Text) where
  -- The pending deliveries are those that were made and those that are left; the channel has taken the
  -- texts of those that were made, once and in order.
  pub record Flushed (force : Bool) (f g : Flow) : Type 0 where
    pub done : List Pending
    pub left : List Pending
    pub reached : Flow
    pub still_first : Bool
    pub stop : Flow
    pub failure : Option Failure
    pub sends : Sends s r runtime_id true done f still_first reached
    pub stopped : Stopped s r runtime_id still_first reached stop left failure
    pub pending : collect_pending_reply_deliveries r runtime_id f.run force ≡ done ++ left
    pub told :
        texts g.wire
        ≡ texts f.wire ++ all_texts s r runtime_id true f.run.deferred_reply_prefix done
    pub leftover :
        Leftover s r runtime_id force
          (prefix_after s r runtime_id true f.run.deferred_reply_prefix done)
          left
          failure
          f
          stop
          g

  abbrev collect : Bool → Run → List Pending
  collect force run = collect_pending_reply_deliveries r runtime_id run force
