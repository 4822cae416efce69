-- ===== src/Delivery/Kept.antt =====
-- A flush keeps the items of the run.
use mossbridge.Delivery.State.{Target}
use mossbridge.Delivery.Runs.{mark_all_items_sent, build_reply_text}
use mossbridge.Delivery.Actions.{
  Reader, Action, silent, send_message, invalid, resolve_system_reply_delivery,
}
use mossbridge.Delivery.Failures.{Failure}
use mossbridge.Delivery.Sending.{Services, Wire, Outcome, sent, failed, defer_system_reply}
use mossbridge.Delivery.Retry.{Flow, send_text_with_retry}
use mossbridge.Delivery.Collect.{
  build_pending_delivery_batch_text, Pending, collect_pending_reply_deliveries,
}
use mossbridge.Delivery.Flush.{
  flush_now, flush_to, flush_plain_reply, flush_system_reply, flush_resolved, mark_all_if_sent,
  settled, settle_batch, after_batch, send_pending,
}
use mossbridge.Delivery.Same.{send_text_with_retry-SameItems}
use mossbridge.Delivery.Progress.{send_pending-Progress}
use mossbridge.Delivery.Consistent.{Keeps, same_run, then_keeps}
use mossbridge.Prelude.{
  either_way, ◌≡◌, refl, ap, Bool, true, false, Option, none, some, List, Text, is_some, codes,
  eq_text,
}
use mossbridge.RuntimeNotices.{Shielded}
use mossbridge.Queues.Deferred.{plain_reply, system_reply}

-- A flush keeps the items.
abbrev KeepsFlow : Flow → Flow → Type 0
KeepsFlow f g = Keeps f.run g.run

system_sent-Keeps :
    (s : Services) (r : Reader) (rid : Text) (f g : Flow) (o : Outcome)
    → KeepsFlow f g
    → KeepsFlow f (mark_all_if_sent s r rid (g, o))
unfolding mark_all_items_sent
system_sent-Keeps s r rid f g sent h = record { items = h.items; item_order = h.item_order }
system_sent-Keeps s r rid f g (failed e) h = h

flush_resolved-Keeps :
    (s : Services) (r : Reader) (rid reply : Text) (t : Target) (f : Flow)
    (a : Action × Option Shielded)
    → f.run.reply_target ≡ some t
    → KeepsFlow f (flush_resolved s r rid reply t f a)
unfolding flush_resolved mark_all_items_sent
flush_resolved-Keeps s r rid reply t f (silent, n) h = record { items = refl; item_order = refl }
flush_resolved-Keeps s r rid reply t f (invalid _, n) h = same_run f.run
flush_resolved-Keeps s r rid reply t f (send_message m, n) h =
    let k =
      send_text_with_retry-SameItems s true system_reply
        (record {
          user_id = t.user_id;
          text = m;
          context_token = t.context_token;
          preserve_block = false;
        })
        t f h in
    let result =
      send_text_with_retry s true system_reply
        (record {
          user_id = t.user_id;
          text = m;
          context_token = t.context_token;
          preserve_block = false;
        })
        t f in
    system_sent-Keeps s r rid f result.0 result.1
      (record { items = k.items; item_order = k.item_order })

after_batch-Keeps :
    (s : Services) (r : Reader) (rid text : Text) (left : List Pending) (e : Failure) (g : Flow)
    (x : Wire × Bool)
    → KeepsFlow g (after_batch s r rid left text e g x)
after_batch-Keeps s r rid text left e g (w, false) = same_run g.run
after_batch-Keeps s r rid text left e g (w, true) = record { items = refl; item_order = refl }

settled-Keeps :
    (s : Services) (r : Reader) (rid : Text) (f g : Flow) (rest : Option (List Pending × Failure))
    → KeepsFlow f g
    → KeepsFlow f (settled s r rid (g, rest))
unfolding settle_batch
settled-Keeps s r rid f g none h = h
settled-Keeps s r rid f g (some (left, e)) h =
    let text = build_pending_delivery_batch_text left g.run.deferred_reply_prefix in
    then_keeps f.run g.run (settle_batch s r rid left e g).run h (
      after_batch-Keeps s r rid text left e g
        (defer_system_reply s g.run text e plain_reply g.wire))

flush_plain-Keeps :
    (s : Services) (r : Reader) (rid : Text) (force : Bool) (f : Flow)
    → is_some f.run.reply_target ≡ true
    → KeepsFlow f (flush_plain_reply s r rid force f)
unfolding flush_plain_reply
flush_plain-Keeps s r rid force f h =
    let ps = collect_pending_reply_deliveries r rid f.run force in
    let result = send_pending s r rid true ps f in
    let p = send_pending-Progress s r rid true ps f h in
    settled-Keeps s r rid f result.0 result.1
      (record { items = p.items; item_order = p.item_order })

flush_to-Keeps :
    (s : Services) (r : Reader) (rid : Text) (force : Bool) (o : Option Target) (f : Flow)
    → f.run.reply_target ≡ o
    → KeepsFlow f (flush_to s r rid force o f)
unfolding flush_to flush_system_reply
flush_to-Keeps s r rid force none f h = same_run f.run
flush_to-Keeps s r rid force (some t) f h =
    either_way (KeepsFlow f) (eq_text t.provider (codes "system"))
      (either_way (KeepsFlow f) force
        (flush_resolved-Keeps s r rid (build_reply_text f.run) t f
          (resolve_system_reply_delivery r (build_reply_text f.run) rid) h)
        (same_run f.run))
      (flush_plain-Keeps s r rid force f (ap is_some h))

pub flush_now-Keeps :
    (s : Services) (r : Reader) (rid : Text) (force : Bool) (f : Flow)
    → KeepsFlow f (flush_now s r rid force f)
unfolding flush_now
flush_now-Keeps s r rid force f =
    either_way (KeepsFlow f) f.run.suppress_delivery (same_run f.run)
      (flush_to-Keeps s r rid force f.run.reply_target f refl)
