-- ===== src/Delivery/Same.antt =====
-- `sendTextWithRetry` keeps the items of the run, their marks and the place of its target.
use mossbridge.Delivery.State.{Target, Run}
use mossbridge.Delivery.Failures.{Failure}
use mossbridge.Delivery.Sending.{
  Payload, Services, Wire, Outcome, sent, failed, Attempt, initial, retry,
  send_text_with_transient_retry, provider_of, resolve_retriable_reply_target,
}
use mossbridge.Delivery.Retry.{
  Flow, settle_failure, adopt_target, retried, send_again, first_sent, send_text_with_retry,
}
use mossbridge.Delivery.Fates.{resolve_retriable-user}
use mossbridge.Prelude.{
  sym, false, ◌≡◌, refl, sym, ap, ◌∙◌, Bool, true, false, Option, none, some, is_some,
}
use mossbridge.Queues.Deferred.{Kind}

-- Another state of a run with the same items and the same marks, whose target is in the same place.
pub record SameItems (run run' : Run) : Type 0 where
  pub items : run'.items ≡ run.items
  pub item_order : run'.item_order ≡ run.item_order
  pub sent_item_ids : run'.sent_item_ids ≡ run.sent_item_ids
  pub prefix : run'.deferred_reply_prefix ≡ run.deferred_reply_prefix
  pub provider : provider_of run'.reply_target ≡ provider_of run.reply_target
  pub aimed : is_some run'.reply_target ≡ is_some run.reply_target

pub SameItems-refl : (run : Run) → SameItems run run
SameItems-refl run = record {
  items = refl;
  item_order = refl;
  sent_item_ids = refl;
  prefix = refl;
  provider = refl;
  aimed = refl;
}

module _ (s : Services) where
  settle_failure-SameItems :
      (may : Bool) (kind : Kind) (a : Attempt) (p : Payload) (e : Failure) (f : Flow)
      → SameItems f.run (settle_failure s may kind a p e f).0.run
  unfolding settle_failure
  settle_failure-SameItems true kind a p e f = SameItems-refl f.run
  settle_failure-SameItems false kind a p e f = SameItems-refl f.run

  adopt-SameItems :
      (t u : Target) (f : Flow)
      → f.run.reply_target ≡ some t
      → u.provider ≡ t.provider
      → SameItems f.run (adopt_target s u f).run
  adopt-SameItems t u f h e = record {
    items = refl;
    item_order = refl;
    sent_item_ids = refl;
    prefix = refl;
    provider = e ∙ sym (ap provider_of h);
    aimed = sym (ap is_some h);
  }

  retried-SameItems :
      (may : Bool) (kind : Kind) (p : Payload) (t u : Target) (f : Flow) (w : Wire) (o : Outcome)
      → f.run.reply_target ≡ some t
      → u.provider ≡ t.provider
      → SameItems f.run (retried s may kind p u f (w, o)).0.run
  retried-SameItems may kind p t u f w sent h e = adopt-SameItems t u f h e
  retried-SameItems may kind p t u f w (failed x) h e =
      settle_failure-SameItems may kind retry p x (record f { wire = w })

  send_again-SameItems :
      (may : Bool) (kind : Kind) (p : Payload) (x : Failure) (f : Flow) (t : Target)
      (u : Option Target)
      → f.run.reply_target ≡ some t
      → ((v : Target) → u ≡ some v → v.provider ≡ t.provider)
      → SameItems f.run (send_again s may kind p x f u).0.run
  unfolding send_again
  send_again-SameItems may kind p x f t none h e = settle_failure-SameItems may kind initial p x f
  send_again-SameItems may kind p x f t (some v) h e =
      let q : Payload = record p { user_id = v.user_id; context_token = v.context_token } in
      let r = send_text_with_transient_retry s f.run q kind retry f.wire in
      retried-SameItems may kind p t v f r.0 r.1 h (e v refl)

  first_sent-SameItems :
      (may : Bool) (kind : Kind) (p : Payload) (t : Target) (f : Flow) (w : Wire) (o : Outcome)
      → f.run.reply_target ≡ some t
      → SameItems f.run (first_sent s may kind p t f (w, o)).0.run
  first_sent-SameItems may kind p t f w sent h = SameItems-refl f.run
  first_sent-SameItems may kind p t f w (failed x) h =
      send_again-SameItems may kind p x (record f { wire = w }) t
        (resolve_retriable_reply_target s t x w) h (λ v q. (resolve_retriable-user s t x w v q).1)

  pub send_text_with_retry-SameItems :
      (may : Bool) (kind : Kind) (p : Payload) (t : Target) (f : Flow)
      → f.run.reply_target ≡ some t
      → SameItems f.run (send_text_with_retry s may kind p t f).0.run
  unfolding send_text_with_retry
  send_text_with_retry-SameItems may kind p t f h =
      let r = send_text_with_transient_retry s f.run p kind initial f.wire in
      first_sent-SameItems may kind p t f r.0 r.1 h
