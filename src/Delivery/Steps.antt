-- ===== src/Delivery/Steps.antt =====
-- `sendReplyDelivery`: which texts the channel takes for one delivery.
use mossbridge.Delivery.Flush.{
  send_to, is_told, notify_runtime_notice, notify, send_reply_delivery, send_text_of_item, observed,
}
use mossbridge.Delivery.Collect.{Content, nothing, message, invalid_action, plain}
use mossbridge.Delivery.State.{Target, Run}
use mossbridge.Delivery.Runs.{build_effective_reply_text}
use mossbridge.Delivery.Actions.{
  Reader, shield_mcp_transport_failure_reply, is_codex_mcp_transport_failure_text,
}
use mossbridge.Delivery.Sending.{Payload, Services, Wire, Outcome, sent, failed}
use mossbridge.Delivery.Retry.{Flow, send_text_with_retry}
use mossbridge.Delivery.Fates.{
  Fate, delivered_once, deferred_once, given_up, send_text_with_retry-Fate,
}
use mossbridge.Delivery.Same.{SameItems-refl, send_text_with_retry-SameItems, SameItems}
use mathlib.Core.List.{map-append}
use mossbridge.RuntimeNotices.{Shielded}
use mossbridge.Prelude.{
  append-nil, is_empty, Bool-cases, ◌&&◌, sym, false, ◌≡◌, refl, sym, ap, ◌∙◌, Bool, true, false,
  Option, none, some, List, [], ◌∷◌, ◌++◌, map, if◌then◌else◌, Text, is_empty, is_some, Bool-cases,
  inl, inr,
}
use mossbridge.Queues.Deferred.{plain_reply}

abbrev pub texts : Wire → List Text
texts w = map (λ p. p.text) w.delivered

module _ (s : Services) (r : Reader) (runtime_id : Text) where
  abbrev pub effective : Bool → Text → Text → List Text
  effective prepend prefix base =
      if is_empty base
      then []
      else (if prepend then build_effective_reply_text prefix base else base) ∷ []

  -- What is to be sent for a delivery.
  abbrev pub item_texts : Content → Bool → Text → List Text
  item_texts nothing prepend prefix = []
  item_texts (invalid_action _) prepend prefix = []
  item_texts (message m) prepend prefix =
      effective prepend prefix (shield_mcp_transport_failure_reply r m)
  item_texts (plain t _) prepend prefix =
      effective prepend prefix (shield_mcp_transport_failure_reply r t)

  abbrev pub after_item : Outcome → List Text → List Text → List Text
  after_item sent ts before = before ++ ts
  after_item (failed _) ts before = before

  -- A delivery sends its texts or, with an error, nothing.
  pub record Step (ts : List Text) (f g : Flow) (o : Outcome) : Type 0 where
    pub same : SameItems f.run g.run
    pub told : texts g.wire ≡ after_item o ts (texts f.wire)
    pub deferred : g.wire.deferred ≡ f.wire.deferred

  observed-SameItems : (raw : Text) (run : Run) → SameItems run (observed s r runtime_id raw run)
  observed-SameItems raw run = elim (Bool-cases (is_codex_mcp_transport_failure_text r raw)) [
    | inl e ↦ rw e (record {
      items = refl;
      item_order = refl;
      sent_item_ids = refl;
      prefix = refl;
      provider = refl;
      aimed = refl;
    })
    | inr e ↦ rw e (SameItems-refl run)
  ]

  observed-target :
      (raw : Text) (run : Run) → (observed s r runtime_id raw run).reply_target ≡ run.reply_target
  observed-target raw run = elim (Bool-cases (is_codex_mcp_transport_failure_text r raw)) [
    | inl e ↦ rw e refl
    | inr e ↦ rw e refl
  ]

  notify_keeps :
      (run : Run) (n : Option (Shielded × Text)) (w : Wire)
      → ((notify s r runtime_id run n w).delivered ≡ w.delivered)
        × ((notify s r runtime_id run n w).deferred ≡ w.deferred)
  unfolding notify_runtime_notice
  notify_keeps run none w = (refl, refl)
  notify_keeps run (some (n, source)) w =
      elim (Bool-cases (is_told s r runtime_id n.kind && s.has_notice_hook)) [
        | inl e ↦ rw (notify_runtime_notice, e) (refl, refl)
        | inr e ↦ rw (notify_runtime_notice, e) (refl, refl)
      ]

  Fate-texts :
      (p : Payload) (w w' : Wire) (o : Outcome)
      → Fate p false w w' o
      → (texts w' ≡ after_item o (p.text ∷ []) (texts w)) × (w'.deferred ≡ w.deferred)
  Fate-texts p w w' sent (delivered_once q hu ht hd hf) = (
    ap (λ (l : List Payload). map (λ p. p.text) l) hd
        ∙ map-append (λ (p : Payload). p.text) w.delivered (q ∷ [])
        ∙ ap (λ (t : Text). texts w ++ t ∷ []) ht,
    hf,
  )
  Fate-texts p w w' sent (deferred_once c h ct hd hf) = absurd (cc h)
  Fate-texts p w w' (failed e) (given_up _ hd hf) =
      (ap (λ (l : List Payload). map (λ p. p.text) l) hd, hf)

  trans-SameItems : (a b c : Run) → SameItems a b → SameItems b c → SameItems a c
  trans-SameItems a b c h k = record {
    items = k.items ∙ h.items;
    item_order = k.item_order ∙ h.item_order;
    sent_item_ids = k.sent_item_ids ∙ h.sent_item_ids;
    prefix = k.prefix ∙ h.prefix;
    provider = k.provider ∙ h.provider;
    aimed = k.aimed ∙ h.aimed;
  }

  send_text_of_item-Step :
      (raw : Text) (n : Option (Shielded × Text)) (prepend : Bool) (t : Target) (f : Flow)
      → f.run.reply_target ≡ some t
      → let (g, o) = send_text_of_item s r runtime_id raw n prepend t f in
        Step
          (effective prepend f.run.deferred_reply_prefix (shield_mcp_transport_failure_reply r raw))
          f
          g
          o
  unfolding send_text_of_item
  send_text_of_item-Step raw n prepend t f h = elim (Bool-cases (is_empty base)) [
    | inl e ↦ rw e (record {
      same = observed-SameItems raw f.run;
      told = sym (append-nil (texts f.wire));
      deferred = refl;
    })
    | inr e ↦
        let told =
          Fate-texts payload start.wire result.0.wire result.1
            (send_text_with_retry-Fate s false plain_reply payload t start refl) in
        let kept = notify_keeps run n f.wire in
        rw e (record {
          same = trans-SameItems f.run run result.0.run (observed-SameItems raw f.run) (
              send_text_with_retry-SameItems s false plain_reply payload t start
                (observed-target raw f.run ∙ h));
          told =
              told.0
              ∙ ap (λ (x : Text). after_item result.1 (line x ∷ []) (texts start.wire))
                  (observed-SameItems raw f.run).prefix
              ∙ ap
                  (λ (l : List Payload).
                    after_item result.1 (line f.run.deferred_reply_prefix ∷ [])
                      (map (λ p. p.text) l))
                  kept.0;
          deferred = told.1 ∙ kept.1;
        })
  ]
    where
      run : Run
      run = observed s r runtime_id raw f.run

      base : Text
      base = shield_mcp_transport_failure_reply r raw

      line : Text → Text
      line prefix = if prepend then build_effective_reply_text prefix base else base

      payload : Payload
      payload = record {
        user_id = t.user_id;
        text = line run.deferred_reply_prefix;
        context_token = t.context_token;
        preserve_block = prepend;
      }

      start : Flow
      start = record f { run = run; wire = notify s r runtime_id run n f.wire }

      result : Flow × Outcome
      result = send_text_with_retry s false plain_reply payload t start

  nothing-Step : (f : Flow) → Step [] f f sent
  nothing-Step f = record {
    same = SameItems-refl f.run;
    told = sym (append-nil (texts f.wire));
    deferred = refl;
  }

  send_to-Step :
      (c : Content) (prepend : Bool) (o : Option Target) (f : Flow)
      → f.run.reply_target ≡ o
      → is_some o ≡ true
      → let (g, o) = send_to s r runtime_id c prepend o f in
        Step (item_texts c prepend f.run.deferred_reply_prefix) f g o
  send_to-Step c prepend none f h a = absurd (cc a)
  send_to-Step nothing prepend (some t) f h a = nothing-Step f
  send_to-Step (invalid_action _) prepend (some t) f h a = nothing-Step f
  send_to-Step (message m) prepend (some t) f h a = send_text_of_item-Step m none prepend t f h
  send_to-Step (plain m n) prepend (some t) f h a = send_text_of_item-Step m n prepend t f h

  pub send_reply_delivery-Step :
      (c : Content) (prepend : Bool) (f : Flow)
      → is_some f.run.reply_target ≡ true
      → let (g, o) = send_reply_delivery s r runtime_id c prepend f in
        Step (item_texts c prepend f.run.deferred_reply_prefix) f g o
  unfolding send_reply_delivery
  send_reply_delivery-Step c prepend f a = send_to-Step c prepend f.run.reply_target f refl a
