-- ===== src/Delivery/Flush.antt =====
-- src/core/stream-delivery.js: the delivery of the items that are not sent, one after the other. A flush
-- waits for the flush of the same run before it, so a flush here is a whole one.
use mossbridge.Delivery.State.{Target, Run}
use mossbridge.Delivery.Runs.{
  build_reply_text, build_effective_reply_text, add_sent, add_all_sent, mark_all_items_sent,
  is_text,
}
use mossbridge.Delivery.Failures.{Failure}
use mossbridge.Delivery.Actions.{
  Reader, Action, silent, send_message, invalid, is_codex_mcp_transport_failure_text,
  shield_mcp_transport_failure_reply, resolve_system_reply_delivery,
}
use mossbridge.Delivery.Sending.{
  Payload, Services, Wire, Outcome, sent, failed, user_of, provider_of, token_of,
  record_outbound_delivery, defer_system_reply,
}
use mossbridge.Delivery.Retry.{Flow, send_text_with_retry}
use mossbridge.Delivery.Collect.{
  Content, nothing, message, invalid_action, plain, Pending, collect_pending_reply_deliveries,
  build_pending_delivery_batch_text,
}
use mossbridge.Prelude.{
  Bool, true, false, ◌&&◌, Option, none, some, List, [], ◌∷◌, ◌++◌, map, keep, Text, eq_text,
  is_empty, codes, if◌then◌else◌,
}
use mossbridge.RuntimeNotices.{Shielded, NoticeKind, no_notice, capacity, capacity_warning}
use mossbridge.Queues.Deferred.{system_reply, plain_reply, kind_text}

module _ (s : Services) (r : Reader) (runtime_id : Text) where
  abbrev pub is_told : NoticeKind → Bool
  is_told no_notice = false
  is_told capacity = true
  is_told capacity_warning = true

  unfoldable pub notify_runtime_notice : Run → Shielded → Text → Wire → Wire
  notify_runtime_notice run notice source w =
      if is_told notice.kind && s.has_notice_hook
      then record w {
        notices =
            w.notices
            ++ (record {
              kind = notice.kind;
              action = notice.action;
              thread_id = run.thread_id;
              provider = provider_of run.reply_target;
              runtime_id = runtime_id;
              text = source;
            })
              ∷ [];
      }
      else w

  abbrev pub notify : Run → Option (Shielded × Text) → Wire → Wire
  notify run none w = w
  notify run (some (notice, source)) w = notify_runtime_notice run notice source w

  abbrev pub observed : Text → Run → Run
  observed raw run =
      if is_codex_mcp_transport_failure_text r raw
      then record run { mcp_transport_failure_observed = true }
      else run

  -- A text of an item, with the deferred prefix of the run before it if it is to be prepended.
  unfoldable pub send_text_of_item :
      Text → Option (Shielded × Text) → Bool → Target → Flow → Flow × Outcome
  unfolding notify_runtime_notice
  send_text_of_item raw notice prepend target f =
      let run = observed raw f.run in
      let base = shield_mcp_transport_failure_reply r raw in
      let seen = record f { run = run } in
      let payload : Payload = record {
        user_id = target.user_id;
        text = if prepend then build_effective_reply_text run.deferred_reply_prefix base else base;
        context_token = target.context_token;
        preserve_block = prepend;
      } in
      if is_empty base
      then (seen, sent)
      else send_text_with_retry s false plain_reply payload target
          (record seen { wire = notify run notice f.wire })

  abbrev pub send_to : Content → Bool → Option Target → Flow → Flow × Outcome
  send_to content prepend none f = (f, sent)
  send_to nothing prepend (some target) f = (f, sent)
  send_to (invalid_action _) prepend (some target) f = (f, sent)
  send_to (message m) prepend (some target) f = send_text_of_item m none prepend target f
  send_to (plain t notice) prepend (some target) f = send_text_of_item t notice prepend target f

  unfoldable pub send_reply_delivery : Content → Bool → Flow → Flow × Outcome
  unfolding send_text_of_item
  send_reply_delivery content prepend f = send_to content prepend f.run.reply_target f

  -- The item is sent, and with the first one the prefix, which is then used up.
  abbrev pub mark_sent : Bool → Text → Flow → Flow
  mark_sent first id f = record f {
    run = record f.run {
      sent_item_ids = add_sent f.run.sent_item_ids id;
      deferred_reply_prefix = if first then [] else f.run.deferred_reply_prefix;
    };
  }

  -- The deliveries up to the first that fails: the rest, with the error.
  unfoldable pub send_pending : Bool → List Pending → Flow → Flow × Option (List Pending × Failure)
  unfolding send_reply_delivery
  send_pending first [] f = (f, none)
  send_pending first (p ∷ ps) f =
      let prepend = first && is_text f.run.deferred_reply_prefix in
      let (f', outcome) = send_reply_delivery p.content prepend f in
      elim outcome [
        | sent ↦ send_pending false ps (mark_sent first p.item_id f')
        | failed e ↦ (f', some (p ∷ ps, e))
      ]

  abbrev pub batch_payload : Run → Text → Payload
  batch_payload run text = record {
    user_id = user_of run.reply_target;
    text = text;
    context_token = token_of run.reply_target;
    preserve_block = false;
  }

  abbrev pub after_batch : List Pending → Text → Failure → Flow → Wire × Bool → Flow
  after_batch pending text e f (w, false) = f
  after_batch pending text e f (w, true) = record f {
    run = record f.run {
      sent_item_ids =
          add_all_sent f.run.sent_item_ids (keep is_text (map (λ p. p.item_id) pending));
      deferred_reply_prefix = [];
    };
    wire =
        record_outbound_delivery s f.run (batch_payload f.run text) (kind_text plain_reply)
          (codes "deferred") (codes "batch") (some e) w;
  }

  -- The texts that were not sent are deferred as one, if they may be.
  unfoldable pub settle_batch : List Pending → Failure → Flow → Flow
  settle_batch pending e f =
      let text = build_pending_delivery_batch_text pending f.run.deferred_reply_prefix in
      after_batch pending text e f (defer_system_reply s f.run text e plain_reply f.wire)

  abbrev pub settled : Flow × Option (List Pending × Failure) → Flow
  settled (f, none) = f
  settled (f, some (pending, e)) = settle_batch pending e f

  unfoldable pub flush_plain_reply : Bool → Flow → Flow
  unfolding send_pending settle_batch
  flush_plain_reply force f =
      settled (send_pending true (collect_pending_reply_deliveries r runtime_id f.run force) f)

  abbrev pub mark_all : Flow → Flow
  mark_all f = record f { run = mark_all_items_sent f.run }

  abbrev pub mark_all_if_sent : Flow × Outcome → Flow
  mark_all_if_sent (f, sent) = mark_all f
  mark_all_if_sent (f, failed _) = f

  abbrev pub with_source : Text → Option Shielded → Option (Shielded × Text)
  with_source source none = none
  with_source source (some n) = some (n, source)

  unfoldable pub flush_resolved : Text → Target → Flow → Action × Option Shielded → Flow
  unfolding notify_runtime_notice
  flush_resolved reply target f (silent, notice) =
      mark_all (record f { wire = notify f.run (with_source reply notice) f.wire })
  flush_resolved reply target f (invalid _, notice) = f
  flush_resolved reply target f (send_message m, notice) = mark_all_if_sent (
      send_text_with_retry s true system_reply
        (record {
          user_id = target.user_id;
          text = m;
          context_token = target.context_token;
          preserve_block = false;
        })
        target f)

  unfoldable pub flush_system_reply : Bool → Target → Flow → Flow
  unfolding flush_resolved
  flush_system_reply force target f =
      let reply = build_reply_text f.run in
      if force
      then flush_resolved reply target f (resolve_system_reply_delivery r reply runtime_id)
      else f

  unfoldable pub flush_to : Bool → Option Target → Flow → Flow
  unfolding flush_plain_reply flush_system_reply
  flush_to force none f = f
  flush_to force (some target) f =
      if eq_text target.provider (codes "system")
      then flush_system_reply force target f
      else flush_plain_reply force f

  unfoldable pub flush_now : Bool → Flow → Flow
  unfolding flush_to
  flush_now force f = if f.run.suppress_delivery then f else flush_to force f.run.reply_target f
