-- ===== src/Delivery/Fates.antt =====
-- `sendTextWithRetry`: what becomes of one text.
use mossbridge.Delivery.State.{Target, Run}
use mossbridge.Delivery.Failures.{
  Failure, should_defer_reply_after_delivery_failure, is_system_reply_context_failure,
}
use mossbridge.Delivery.Sending.{
  Payload, Services, Wire, DeferredCall, Outcome, sent, failed, Attempt, initial, retry,
  attempt_text, record_outbound_delivery, send_text_with_transient_retry, defer_system_reply,
  defer_to, deferred_call, offer, resolve_retriable_reply_target, refreshed_target,
}
use mossbridge.Delivery.Retry.{
  Flow, settle_failure, retried, send_again, first_sent, send_text_with_retry,
}
use mossbridge.Delivery.Attempts.{
  record_outbound-Told, Tried, send_text_with_transient_retry-bounds,
}
use mossbridge.Prelude.{
  ℕ, ◌≡◌, refl, sym, ap, ◌∙◌, inl, inr, Bool, true, false, ◌&&◌, ◌||◌, not, Option, none, some,
  List, [], ◌∷◌, ◌++◌, Bool-cases, Option-cases, length, if◌then◌else◌, Text, is_empty, codes,
  eq_text,
}
use mossbridge.Queues.Deferred.{Kind, kind_text}
use mossbridge.Js.{normalize_text}

-- The text was taken by the channel, once, for the user; or it was handed to the deferred replies,
-- once; or neither, with an error. Only a text that may be deferred is.
pub data Fate (p : Payload) (may_defer : Bool) (before after : Wire) : Outcome → Type 0 where
  delivered_once :
      (q : Payload)
      → q.user_id ≡ p.user_id
      → q.text ≡ p.text
      → after.delivered ≡ before.delivered ++ q ∷ []
      → after.deferred ≡ before.deferred
      → Fate p may_defer before after sent
  deferred_once :
      (c : DeferredCall)
      → may_defer ≡ true
      → c.text ≡ p.text
      → after.delivered ≡ before.delivered
      → after.deferred ≡ before.deferred ++ c ∷ []
      → Fate p may_defer before after sent
  given_up :
      (e : Failure)
      → after.delivered ≡ before.delivered
      → after.deferred ≡ before.deferred
      → Fate p may_defer before after (failed e)

-- What deferring does to the calls: nothing, or one more call of the hook.
pub data Deferral (text : Text) (w w' : Wire) : Bool → Type 0 where
  refused : w' ≡ w → Deferral text w w' false
  accepted :
      (c : DeferredCall)
      → c.text ≡ text
      → w' ≡ record w { deferred = w.deferred ++ c ∷ [] }
      → Deferral text w w' true

module _ (s : Services) where
  offer-Deferral :
      (hook : DeferredCall → Bool) (c : DeferredCall) (w : Wire)
      → let (w', b) = offer s hook c w in Deferral c.text w w' b
  offer-Deferral hook c w = elim (Bool-cases (hook c)) [
    | inl h ↦ rw h (accepted c refl refl)
    | inr h ↦ rw h (refused refl)
  ]

  defer_to-Deferral :
      (hook : Option (DeferredCall → Bool)) (t : Option Target) (run : Run) (text : Text)
      (e : Failure) (kind : Kind) (w : Wire)
      → let (w', b) = defer_to s hook t run text e kind w in Deferral text w w' b
  unfolding defer_to deferred_call
  defer_to-Deferral none t run text e kind w = refused refl
  defer_to-Deferral (some hook) none run text e kind w = refused refl
  defer_to-Deferral (some hook) (some t) run text e kind w =
      elim (Bool-cases (
        should_defer_reply_after_delivery_failure s.lower e
        && not (is_empty t.user_id)
        && not (is_empty text))) [
          | inl h ↦ rw (defer_to, h) (offer-Deferral hook (deferred_call s run t text e kind) w)
          | inr h ↦ rw (defer_to, h) (refused refl)
        ]

  pub defer_system_reply-Deferral :
      (run : Run) (text : Text) (e : Failure) (kind : Kind) (w : Wire)
      → let (w', b) = defer_system_reply s run text e kind w in Deferral text w w' b
  unfolding defer_system_reply
  defer_system_reply-Deferral run text e kind w =
      defer_to-Deferral s.defer run.reply_target run text e kind w

  -- A failure after which the channel has taken nothing and nothing was deferred.
  settle_failure-Fate :
      (may : Bool) (kind : Kind) (a : Attempt) (p : Payload) (e : Failure) (f : Flow)
      (before : Wire)
      → f.wire.delivered ≡ before.delivered
      → f.wire.deferred ≡ before.deferred
      → let (g, o) = settle_failure s may kind a p e f in Fate p may before g.wire o
  unfolding settle_failure
  settle_failure-Fate false kind a p e f before hd hf = given_up e hd hf
  settle_failure-Fate true kind a p e f before hd hf =
      by_deferral (defer_system_reply s f.run p.text e kind f.wire).0
        (defer_system_reply s f.run p.text e kind f.wire).1
        (defer_system_reply-Deferral f.run p.text e kind f.wire)
    where
      by_deferral :
          (w : Wire) (b : Bool)
          → Deferral p.text f.wire w b
          → Fate p true before
              (record_outbound_delivery s f.run p
                (kind_text kind)
                (if b then codes "deferred" else codes "failed")
                (attempt_text a)
                (some e)
                w)
              (if b then sent else failed e)
      by_deferral w false (refused q) =
          let t =
            record_outbound-Told s f.run p (kind_text kind) (codes "failed") (attempt_text a)
              (some e) w in
          given_up e (t.delivered ∙ ap (λ (v : Wire). v.delivered) q ∙ hd)
            (t.deferred ∙ ap (λ (v : Wire). v.deferred) q ∙ hf)
      by_deferral w true (accepted c ct q) =
          let t =
            record_outbound-Told s f.run p (kind_text kind) (codes "deferred") (attempt_text a)
              (some e) w in
          deferred_once c refl ct (t.delivered ∙ ap (λ (v : Wire). v.delivered) q ∙ hd) (
            t.deferred
            ∙ ap (λ (v : Wire). v.deferred) q
            ∙ ap (λ (l : List DeferredCall). l ++ c ∷ []) hf)

  -- Both attempts come to this.
  once_sent :
      (p q : Payload) (may : Bool) (room : ℕ) (w0 w w' : Wire)
      → q.user_id ≡ p.user_id
      → q.text ≡ p.text
      → w.delivered ≡ w0.delivered
      → w.deferred ≡ w0.deferred
      → Tried s q room w w' sent
      → Fate p may w0 w' sent
  once_sent p q may room w0 w w' hu ht hd hf h =
      delivered_once q hu ht (h.delivered ∙ ap (λ (l : List Payload). l ++ q ∷ []) hd)
        (h.deferred ∙ hf)

  retried-Fate :
      (may : Bool) (kind : Kind) (p q : Payload) (t : Target) (f : Flow) (w0 w : Wire) (o : Outcome)
      → q.user_id ≡ p.user_id
      → q.text ≡ p.text
      → f.wire.delivered ≡ w0.delivered
      → f.wire.deferred ≡ w0.deferred
      → Tried s q (length s.delays) f.wire w o
      → let (g, o') = retried s may kind p t f (w, o) in Fate p may w0 g.wire o'
  retried-Fate may kind p q t f w0 w sent hu ht hd hf h =
      once_sent p q may (length s.delays) w0 f.wire w hu ht hd hf h
  retried-Fate may kind p q t f w0 w (failed e) hu ht hd hf h =
      settle_failure-Fate may kind retry p e (record f { wire = w }) w0 (h.delivered ∙ hd)
        (h.deferred ∙ hf)

  send_again-Fate :
      (may : Bool) (kind : Kind) (p : Payload) (e : Failure) (f : Flow) (t : Option Target)
      (w0 : Wire)
      → ((u : Target) → t ≡ some u → u.user_id ≡ p.user_id)
      → f.wire.delivered ≡ w0.delivered
      → f.wire.deferred ≡ w0.deferred
      → let (g, o) = send_again s may kind p e f t in Fate p may w0 g.wire o
  unfolding send_again
  send_again-Fate may kind p e f none w0 hu hd hf =
      settle_failure-Fate may kind initial p e f w0 hd hf
  send_again-Fate may kind p e f (some t) w0 hu hd hf =
      let q : Payload = record p { user_id = t.user_id; context_token = t.context_token } in
      let r = send_text_with_transient_retry s f.run q kind retry f.wire in
      retried-Fate may kind p q t f w0 r.0 r.1 (hu t refl) refl hd hf
        (send_text_with_transient_retry-bounds s f.run q kind retry f.wire)

  refreshed-user :
      (t : Target) (token : Text) (u : Target)
      → refreshed_target s t token ≡ some u
      → (u.user_id ≡ t.user_id) × (u.provider ≡ t.provider)
  refreshed-user t token u h = elim (Bool-cases (is_empty token || eq_text token t.context_token)) [
    | inl e ↦ cc (rw e at h)
    | inr e ↦ same (rw e at h)
  ]
    where
      fresh : Target
      fresh = record {
        user_id = t.user_id;
        context_token = token;
        provider = t.provider;
        context_token_age_ms = none;
        causal_message_id = [];
        redispatch_generation = 0;
      }

      same : some fresh ≡ some u → (u.user_id ≡ t.user_id) × (u.provider ≡ t.provider)
      same q =
          let i : fresh ≡ u = cc q in
          (sym (ap (λ (x : Target). x.user_id) i), sym (ap (λ (x : Target). x.provider) i))

  -- A fresh token is for the same user.
  pub resolve_retriable-user :
      (t : Target) (e : Failure) (w : Wire) (u : Target)
      → resolve_retriable_reply_target s t e w ≡ some u
      → (u.user_id ≡ t.user_id) × (u.provider ≡ t.provider)
  unfolding resolve_retriable_reply_target
  resolve_retriable-user t e w u h =
      elim (Bool-cases (not (is_system_reply_context_failure e) || is_empty t.user_id)) [
        | inl g ↦ cc (rw (resolve_retriable_reply_target, g) at h)
        | inr g ↦ elim (Option-cases s.known_tokens) [
          | inl k ↦ cc (rw (resolve_retriable_reply_target, g, k) at h)
          | inr (tokens, k) ↦
              refreshed-user t (normalize_text (tokens w.calls t.user_id)) u
                (rw (resolve_retriable_reply_target, g, k) at h)
        ]
      ]

  first_sent-Fate :
      (may : Bool) (kind : Kind) (p : Payload) (t : Target) (f : Flow) (w : Wire) (o : Outcome)
      → t.user_id ≡ p.user_id
      → Tried s p (length s.delays) f.wire w o
      → let (g, o') = first_sent s may kind p t f (w, o) in Fate p may f.wire g.wire o'
  first_sent-Fate may kind p t f w sent hu h =
      once_sent p p may (length s.delays) f.wire f.wire w refl refl refl refl h
  first_sent-Fate may kind p t f w (failed e) hu h =
      send_again-Fate may kind p e (record f { wire = w }) (resolve_retriable_reply_target s t e w)
        f.wire (λ u q. (resolve_retriable-user t e w u q).0 ∙ hu) h.delivered h.deferred

  -- A text that is sent to the user of the target is taken by the channel exactly once, as it is
  -- and for that user; or it is handed to the deferred replies exactly once, if it may be; or
  -- neither happens and there is an error.
  pub send_text_with_retry-Fate :
      (may_defer : Bool) (kind : Kind) (p : Payload) (target : Target) (f : Flow)
      → target.user_id ≡ p.user_id
      → let (g, o) = send_text_with_retry s may_defer kind p target f in
        Fate p may_defer f.wire g.wire o
  unfolding send_text_with_retry
  send_text_with_retry-Fate may kind p target f h =
      let r = send_text_with_transient_retry s f.run p kind initial f.wire in
      first_sent-Fate may kind p target f r.0 r.1 h
        (send_text_with_transient_retry-bounds s f.run p kind initial f.wire)
