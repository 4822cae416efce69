-- ===== src/Delivery/Sending.antt =====
-- src/core/stream-delivery.js: sending one text, with its retries and the deferral of a text that cannot
-- be sent. The channel and the hooks are parameters; what they were called with is kept.
use mossbridge.Delivery.State.{Target, Run}
use mossbridge.Delivery.Runs.{decimal}
use mossbridge.Delivery.Failures.{
  Failure, DeferReason, is_system_reply_context_failure, is_transient_delivery_failure,
  should_defer_reply_after_delivery_failure, resolve_delivery_defer_reason,
}
use mossbridge.RuntimeNotices.{NoticeKind, NoticeAction}
use mossbridge.Prelude.{
  ℕ, ◌+◌, ltb, ◌==◌, Bool, true, false, ◌&&◌, ◌||◌, not, Option, none, some, List, [], ◌∷◌, ◌++◌,
  Text, eq_text, trim, is_empty, or_text, codes, if◌then◌else◌, first_some,
}
use mossbridge.Js.{Value, normalize_text}
use mossbridge.Queues.Deferred.{Kind, ReplayPolicy, causal_message_only, next_inbound, kind_text}

pub record Payload : Type 0 where
  pub user_id : Text
  pub text : Text
  pub context_token : Text
  pub preserve_block : Bool

-- What `onOutboundDelivery` is called with.
pub record Audit : Type 0 where
  pub thread_id : Text
  pub turn_id : Text
  pub run_key : Text
  pub binding_key : Text
  pub user_id : Text
  pub provider : Text
  pub kind : Text
  pub status : Text
  pub attempt : Text
  pub context_token_present : Bool
  pub context_token_age_ms : Option ℕ
  pub text_preview : Text
  pub error : Option Failure

-- What `onDeferredSystemReply` is called with.
pub record DeferredCall : Type 0 where
  pub thread_id : Text
  pub user_id : Text
  pub text : Text
  pub error : Failure
  pub kind : Kind
  pub dedupe_key : Text
  pub causal_message_id : Text
  pub redispatch_generation : ℕ
  pub replay_policy : ReplayPolicy
  pub defer_reason : DeferReason
  pub context_token_age_ms : Option ℕ

-- What `onRuntimeNotice` is called with.
pub record NoticeCall : Type 0 where
  pub kind : NoticeKind
  pub action : NoticeAction
  pub thread_id : Text
  pub provider : Text
  pub runtime_id : Text
  pub text : Text

-- `send n` is the outcome of the n-th call of `sendText`, the error if it fails. `known_tokens n` is the
-- table of `getKnownContextTokens` after n calls. `defer` is whether the hook takes the reply or throws.
-- A hook that is not there is none or false; `lower` is `toLowerCase`.
pub record Services : Type 0 where
  pub send : ℕ → Payload → Option Failure
  pub known_tokens : Option (ℕ → Text → Value)
  pub context_token_age_ms : Text → Option ℕ
  pub defer : Option (DeferredCall → Bool)
  pub has_outbound_hook : Bool
  pub has_notice_hook : Bool
  pub delays : List ℕ
  pub lower : Text → Text
  pub find_binding : Text → Option Text

-- The calls so far: of `sendText`, the texts that it sent, the hooks, and the waits between attempts.
pub record Wire : Type 0 where
  pub calls : ℕ
  pub delivered : List Payload
  pub audits : List Audit
  pub deferred : List DeferredCall
  pub notices : List NoticeCall
  pub slept : List ℕ
  pub ai_replies : ℕ

pub data Outcome : Type 0 where
  sent : Outcome
  failed : Failure → Outcome

pub data Attempt : Type 0 where
  initial retry : Attempt

abbrev pub attempt_text : Attempt → Text
attempt_text initial = codes "initial"
attempt_text retry = codes "retry"

-- `${attempt}_transient_retry_${n}`.
abbrev pub transient_text : Attempt → ℕ → Text
transient_text attempt n = attempt_text attempt ++ codes "_transient_retry_" ++ decimal n

abbrev pub user_of : Option Target → Text
user_of none = []
user_of (some t) = t.user_id

abbrev pub provider_of : Option Target → Text
provider_of none = []
provider_of (some t) = t.provider

abbrev pub token_of : Option Target → Text
token_of none = []
token_of (some t) = t.context_token

module _ (s : Services) where
  unfoldable pub resolve_reply_target_context_token_age_ms : Option Target → Option ℕ
  resolve_reply_target_context_token_age_ms none = none
  resolve_reply_target_context_token_age_ms (some t) =
      first_some t.context_token_age_ms
        (if is_empty t.user_id then none else s.context_token_age_ms t.user_id)

  unfoldable pub record_outbound_delivery :
      Run → Payload → Text → Text → Text → Option Failure → Wire → Wire
  record_outbound_delivery run payload kind status attempt error w =
      if s.has_outbound_hook
      then record w {
        audits =
            w.audits
            ++ (record {
              thread_id = run.thread_id;
              turn_id = run.turn_id;
              run_key = run.run_key;
              binding_key = run.binding_key;
              user_id = or_text payload.user_id (user_of run.reply_target);
              provider = provider_of run.reply_target;
              kind = kind;
              status = status;
              attempt = attempt;
              context_token_present = not (is_empty payload.context_token);
              context_token_age_ms = resolve_reply_target_context_token_age_ms run.reply_target;
              text_preview = payload.text;
              error = error;
            })
              ∷ [];
      }
      else w

  abbrev pub after_success : Run → Payload → Kind → Attempt → ℕ → Wire → Wire
  after_success run payload kind attempt index w =
      let label = if index == 0 then attempt_text attempt else transient_text attempt index in
      let told =
        record_outbound_delivery run payload (kind_text kind) (codes "sent") label none
          (record w { calls = w.calls + 1; delivered = w.delivered ++ payload ∷ [] }) in
      record told { ai_replies = told.ai_replies + 1 }

  abbrev pub after_failure : Run → Payload → Kind → Attempt → ℕ → ℕ → Failure → Wire → Wire
  after_failure run payload kind attempt index delay e w =
      let told =
        record_outbound_delivery run payload (kind_text kind) (codes "retrying")
          (transient_text attempt (index + 1)) (some e) (record w { calls = w.calls + 1 }) in
      record told { slept = told.slept ++ delay ∷ [] }

  -- The loop goes on along the delays that are left; `index` is the number of those that are over.
  unfoldable pub send_along : Run → Payload → Kind → Attempt → ℕ → List ℕ → Wire → Wire × Outcome
  send_along run payload kind attempt index [] w = elim (s.send w.calls payload) [
    | none ↦ (after_success run payload kind attempt index w, sent)
    | some e ↦ (record w { calls = w.calls + 1 }, failed e)
  ]
  send_along run payload kind attempt index (delay ∷ rest) w = elim (s.send w.calls payload) [
    | none ↦ (after_success run payload kind attempt index w, sent)
    | some e ↦
        let again =
          send_along run payload kind attempt (index + 1) rest
            (after_failure run payload kind attempt index delay e w) in
        if is_transient_delivery_failure s.lower e
        then again
        else (record w { calls = w.calls + 1 }, failed e)
  ]

  unfoldable pub send_text_with_transient_retry :
      Run → Payload → Kind → Attempt → Wire → Wire × Outcome
  unfolding send_along
  send_text_with_transient_retry run payload kind attempt w =
      send_along run payload kind attempt 0 s.delays w

  -- `redispatchGeneration` above 0 waits for its causal message.
  unfoldable pub deferred_call : Run → Target → Text → Failure → Kind → DeferredCall
  deferred_call run target text e kind = record {
    thread_id = run.thread_id;
    user_id = target.user_id;
    text = text;
    error = e;
    kind = kind;
    dedupe_key = run.run_key;
    causal_message_id = trim target.causal_message_id;
    redispatch_generation = target.redispatch_generation;
    replay_policy =
        if ltb 0 target.redispatch_generation then causal_message_only else next_inbound;
    defer_reason = resolve_delivery_defer_reason s.lower e;
    context_token_age_ms = resolve_reply_target_context_token_age_ms (some target);
  }

  abbrev pub offer : (DeferredCall → Bool) → DeferredCall → Wire → Wire × Bool
  offer hook call w =
      if hook call then (record w { deferred = w.deferred ++ call ∷ [] }, true) else (w, false)

  unfoldable pub defer_to :
      Option (DeferredCall → Bool)
      → Option Target
      → Run
      → Text
      → Failure
      → Kind
      → Wire
      → Wire × Bool
  unfolding deferred_call
  defer_to none target run text e kind w = (w, false)
  defer_to (some hook) none run text e kind w = (w, false)
  defer_to (some hook) (some t) run text e kind w =
      let taken = offer hook (deferred_call run t text e kind) w in
      if should_defer_reply_after_delivery_failure s.lower e
        && not (is_empty t.user_id)
        && not (is_empty text)
      then taken
      else (w, false)

  unfoldable pub defer_system_reply : Run → Text → Failure → Kind → Wire → Wire × Bool
  unfolding defer_to
  defer_system_reply run text e kind w = defer_to s.defer run.reply_target run text e kind w

  abbrev pub refreshed_target : Target → Text → Option Target
  refreshed_target t token =
      if is_empty token || eq_text token t.context_token
      then none
      else some (record {
        user_id = t.user_id;
        context_token = token;
        provider = t.provider;
        context_token_age_ms = none;
        causal_message_id = [];
        redispatch_generation = 0;
      })

  -- The target with the token that is known after the failure, if that is another one.
  unfoldable pub resolve_retriable_reply_target : Target → Failure → Wire → Option Target
  resolve_retriable_reply_target t e w =
      if not (is_system_reply_context_failure e) || is_empty t.user_id
      then none
      else elim s.known_tokens [
        | none ↦ none
        | some tokens ↦ refreshed_target t (normalize_text (tokens w.calls t.user_id))
      ]
