-- ===== src/Delivery/Retry.antt =====
-- src/core/stream-delivery.js: sending one text to the target of a run, once more with a fresh token if
-- the token is refused, and the deferral of what could not be sent.
use mossbridge.Delivery.State.{Target, Run}
use mossbridge.Delivery.Failures.{Failure}
use mossbridge.Delivery.Sending.{
  Payload, Services, Wire, Outcome, sent, failed, Attempt, initial, retry, attempt_text,
  record_outbound_delivery, send_text_with_transient_retry, defer_system_reply,
  resolve_retriable_reply_target,
}
use mossbridge.Prelude.{Bool, Option, none, some, is_empty, codes, Dict, put, if◌then◌else◌}
use mossbridge.Queues.Deferred.{Kind, kind_text}

-- The run that is sent, the targets of the bindings, and the calls so far.
pub record Flow : Type 0 where
  pub run : Run
  pub bindings : Dict Target
  pub wire : Wire

module _ (s : Services) where
  -- A failure is deferred, if it may be and the hook takes it.
  unfoldable pub settle_failure : Bool → Kind → Attempt → Payload → Failure → Flow → Flow × Outcome
  settle_failure defer_on_failure kind attempt payload e f =
      let (w, taken) = defer_system_reply s f.run payload.text e kind f.wire in
      let told =
        record_outbound_delivery s f.run payload (kind_text kind)
          (if taken then codes "deferred" else codes "failed") (attempt_text attempt) (some e) w in
      if defer_on_failure
      then (record f { wire = told }, if taken then sent else failed e)
      else (f, failed e)

  -- The target with the fresh token replaces the old one, in the run and for its binding.
  abbrev pub adopt_target : Target → Flow → Flow
  adopt_target t f = record f {
    run = record f.run { reply_target = some t };
    bindings =
        if is_empty f.run.binding_key then f.bindings else put f.run.binding_key t f.bindings;
  }

  abbrev pub retried : Bool → Kind → Payload → Target → Flow → Wire × Outcome → Flow × Outcome
  retried defer_on_failure kind payload t f (w, sent) =
      (adopt_target t (record f { wire = w }), sent)
  retried defer_on_failure kind payload t f (w, failed e) =
      settle_failure defer_on_failure kind retry payload e (record f { wire = w })

  unfoldable pub send_again :
      Bool → Kind → Payload → Failure → Flow → Option Target → Flow × Outcome
  send_again defer_on_failure kind payload e f none =
      settle_failure defer_on_failure kind initial payload e f
  send_again defer_on_failure kind payload e f (some t) =
      retried defer_on_failure kind payload t f (
        send_text_with_transient_retry s f.run
          (record payload { user_id = t.user_id; context_token = t.context_token }) kind retry
          f.wire)

  abbrev pub first_sent : Bool → Kind → Payload → Target → Flow → Wire × Outcome → Flow × Outcome
  first_sent defer_on_failure kind payload target f (w, sent) = (record f { wire = w }, sent)
  first_sent defer_on_failure kind payload target f (w, failed e) =
      send_again defer_on_failure kind payload e (record f { wire = w })
        (resolve_retriable_reply_target s target e w)

  -- `target` is the run's at the time of the call.
  unfoldable pub send_text_with_retry : Bool → Kind → Payload → Target → Flow → Flow × Outcome
  unfolding send_again
  send_text_with_retry defer_on_failure kind payload target f =
      first_sent defer_on_failure kind payload target f
        (send_text_with_transient_retry s f.run payload kind initial f.wire)
