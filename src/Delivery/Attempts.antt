-- ===== src/Delivery/Attempts.antt =====
-- `sendTextWithTransientRetry`: how often the channel is called, and when it takes the text.
use mossbridge.Delivery.State.{Run}
use mossbridge.Delivery.Failures.{Failure, is_transient_delivery_failure}
use mossbridge.Delivery.Sending.{
  Payload, Services, Wire, Outcome, sent, failed, Attempt, attempt_text, transient_text,
  record_outbound_delivery, send_along, send_text_with_transient_retry, after_success,
  after_failure,
}
use mossbridge.Prelude.{
  ℕ, zero, suc, ◌+◌, ◌≤◌, ◌<◌, ◌≡◌, refl, ap, ◌∙◌, subst, ◌⊎◌, inl, inr, Bool, true, false, Option,
  none, some, List, [], ◌∷◌, ◌++◌, arith, Bool-cases, Option-cases, length, ◌==◌, codes,
  if◌then◌else◌, Text,
}
use mossbridge.Queues.Deferred.{Kind, kind_text}

-- What the channel has taken after an outcome.
abbrev pub taken : Outcome → Payload → List Payload → List Payload
taken sent p ps = ps ++ p ∷ []
taken (failed e) p ps = ps

-- An error that is given up is not transient, or no delay was left for it.
abbrev pub IsFinal : Services → Bool → Outcome → Type 0
IsFinal s exhausted sent = Unit
IsFinal s exhausted (failed e) =
    (is_transient_delivery_failure s.lower e ≡ false) ⊎ (exhausted ≡ true)

-- The hook for the audits changes nothing else.
pub record Told (w w' : Wire) : Type 0 where
  pub calls : w'.calls ≡ w.calls
  pub delivered : w'.delivered ≡ w.delivered
  pub deferred : w'.deferred ≡ w.deferred
  pub notices : w'.notices ≡ w.notices

pub record_outbound-Told :
    (s : Services) (run : Run) (p : Payload) (k st a : Text) (e : Option Failure) (w : Wire)
    → Told w (record_outbound_delivery s run p k st a e w)
unfolding record_outbound_delivery
record_outbound-Told s run p k st a e w = elim (Bool-cases s.has_outbound_hook) [
  | inl h ↦ rw h (record { calls = refl; delivered = refl; deferred = refl; notices = refl })
  | inr h ↦ rw h (record { calls = refl; delivered = refl; deferred = refl; notices = refl })
]

-- The attempts for one text, with room for so many more after the first.
pub record Tried (s : Services) (p : Payload) (room : ℕ) (w w' : Wire) (o : Outcome) : Type 0 where
  pub called : w.calls < w'.calls
  pub bounded : w'.calls ≤ w.calls + suc room
  pub delivered : w'.delivered ≡ taken o p w.delivered
  pub deferred : w'.deferred ≡ w.deferred
  pub final : IsFinal s (w'.calls == w.calls + suc room) o

module _ (s : Services) (run : Run) (p : Payload) (kind : Kind) (attempt : Attempt) where
  success-Told :
      (index : ℕ) (w : Wire)
      → Told
          (record w { calls = w.calls + 1; delivered = w.delivered ++ p ∷ [] })
          (after_success s run p kind attempt index w)
  success-Told index w =
      let t =
        record_outbound-Told s run p (kind_text kind) (codes "sent")
          (if index == 0 then attempt_text attempt else transient_text attempt index) none
          (record w { calls = w.calls + 1; delivered = w.delivered ++ p ∷ [] }) in
      record {
        calls = t.calls;
        delivered = t.delivered;
        deferred = t.deferred;
        notices = t.notices;
      }

  success-Tried :
      (index room : ℕ) (w : Wire)
      → Tried s p room w (after_success s run p kind attempt index w) sent
  success-Tried index room w =
      let t = success-Told index w in
      record {
        called = omega (arith, t.calls);
        bounded = omega (arith, t.calls);
        delivered = t.delivered;
        deferred = t.deferred;
        final = tt;
      }

  failure-Told :
      (index delay : ℕ) (e : Failure) (w : Wire)
      → Told (record w { calls = w.calls + 1 }) (after_failure s run p kind attempt index delay e w)
  failure-Told index delay e w =
      let t =
        record_outbound-Told s run p (kind_text kind) (codes "retrying")
          (transient_text attempt (index + 1)) (some e) (record w { calls = w.calls + 1 }) in
      record {
        calls = t.calls;
        delivered = t.delivered;
        deferred = t.deferred;
        notices = t.notices;
      }

  again-Tried :
      (room : ℕ) (w w1 w2 : Wire) (o : Outcome)
      → Told (record w { calls = w.calls + 1 }) w1
      → Tried s p room w1 w2 o
      → Tried s p (suc room) w w2 o
  again-Tried room w w1 w2 o t h = record {
    called = omega (arith, t.calls, h.called);
    bounded = omega (arith, t.calls, h.bounded);
    delivered = h.delivered ∙ ap (taken o p) t.delivered;
    deferred = h.deferred ∙ t.deferred;
    final = subst (λ n. IsFinal s (w2.calls == n) o) last h.final;
  }
    where
      last : w1.calls + suc room ≡ w.calls + suc (suc room)
      last = omega (arith, t.calls)

  sent_now :
      (ds : List ℕ) (index : ℕ) (w : Wire)
      → s.send w.calls p ≡ none
      → send_along s run p kind attempt index ds w
        ≡ (after_success s run p kind attempt index w, sent)
  unfolding send_along
  sent_now [] index w h = rw (send_along, h) refl
  sent_now (d ∷ ds) index w h = rw (send_along, h) refl

  tried_again :
      (d : ℕ) (ds : List ℕ) (index : ℕ) (w : Wire) (e : Failure)
      → s.send w.calls p ≡ some e
      → is_transient_delivery_failure s.lower e ≡ true
      → send_along s run p kind attempt index (d ∷ ds) w
        ≡ send_along s run p kind attempt
            (index + 1)
            ds
            (after_failure s run p kind attempt index d e w)
  unfolding send_along
  tried_again d ds index w e h t = rw (send_along, h, t) refl

  send_along-Tried :
      (ds : List ℕ) (index : ℕ) (w : Wire)
      → let (w', o) = send_along s run p kind attempt index ds w in Tried s p (length ds) w w' o
  unfolding send_along
  send_along-Tried [] index w = elim (Option-cases (s.send w.calls p)) [
    | inl e ↦ rw (sent_now [] index w e) (success-Tried index 0 w)
    | inr (e, h) ↦
        rw (send_along, h)
          (record {
            called = omega arith;
            bounded = omega arith;
            delivered = refl;
            deferred = refl;
            final = inr (ground arith);
          })
  ]
  send_along-Tried (d ∷ ds) index w = elim (Option-cases (s.send w.calls p)) [
    | inl e ↦ rw (sent_now (d ∷ ds) index w e) (success-Tried index (suc (length ds)) w)
    | inr (e, h) ↦ elim (Bool-cases (is_transient_delivery_failure s.lower e)) [
      | inl t ↦
          let w1 = after_failure s run p kind attempt index d e w in
          let rest = send_along s run p kind attempt (index + 1) ds w1 in
          rw (tried_again d ds index w e h t) (
            again-Tried (length ds) w w1 rest.0 rest.1 (failure-Told index d e w)
              (send_along-Tried ds (index + 1) w1))
      | inr t ↦
          rw (send_along, h, t)
            (record {
              called = omega arith;
              bounded = omega arith;
              delivered = refl;
              deferred = refl;
              final = inl t;
            })
    ]
  ]

  -- The channel is called at least once and at most once more than there are delays; it has taken
  -- the text once if it was sent and not at all otherwise; and an error that is given up is not
  -- transient, or every delay was used.
  pub send_text_with_transient_retry-bounds :
      (w : Wire)
      → let (w', o) = send_text_with_transient_retry s run p kind attempt w in
        Tried s p (length s.delays) w w' o
  unfolding send_text_with_transient_retry
  send_text_with_transient_retry-bounds w = send_along-Tried s.delays 0 w

  -- The n-th attempt from now on fails with a transient error.
  abbrev pub FailsAt : Wire → ℕ → Type 0
  FailsAt w n =
      (e : Failure) × (s.send (w.calls + n) p ≡ some e)
      × (is_transient_delivery_failure s.lower e ≡ true)

  send_along_lem :
      (ds : List ℕ) (index n : ℕ) (w : Wire)
      → n ≤ length ds
      → ((i : ℕ) → i < n → FailsAt w i)
      → s.send (w.calls + n) p ≡ none
      → let (w', o) = send_along s run p kind attempt index ds w in
        (o ≡ sent) × (w'.calls ≡ w.calls + suc n)
  unfolding send_along
  send_along_lem ds index zero w le before now =
      rw (sent_now ds index w (subst (λ n. s.send n p ≡ none) (omega arith) now))
        (refl, omega (arith, (success-Told index w).calls))
  send_along_lem [] index (suc n) w le before now = absurd (omega arith)
  send_along_lem (d ∷ ds) index (suc n) w le before now =
      let (e, h, t) = before 0 (omega arith) in
      let w1 = after_failure s run p kind attempt index d e w in
      let told = failure-Told index d e w in
      let (o, c) =
        send_along_lem ds (index + 1) n w1 (omega arith) (later w1 told) (at_next w1 told n now) in
      rw (tried_again d ds index w e (subst (λ n. s.send n p ≡ some e) (omega arith) h) t)
        (o, c ∙ omega (arith, told.calls))
    where
      next :
          (w1 : Wire) (i : ℕ)
          → Told (record w { calls = w.calls + 1 }) w1
          → w.calls + suc i ≡ w1.calls + i
      next w1 i told = omega (arith, told.calls)

      at_next :
          (w1 : Wire)
          → Told (record w { calls = w.calls + 1 }) w1
          → (i : ℕ) → s.send (w.calls + suc i) p ≡ none
          → s.send (w1.calls + i) p ≡ none
      at_next w1 told i h = subst (λ n. s.send n p ≡ none) (next w1 i told) h

      later :
          (w1 : Wire) → Told (record w { calls = w.calls + 1 }) w1 → (i : ℕ) → i < n → FailsAt w1 i
      later w1 told i lt =
          let (e, h, t) = before (suc i) (omega arith) in
          (e, subst (λ n. s.send n p ≡ some e) (next w1 i told) h, t)

  -- If the n-th attempt would succeed, the attempts before it fail with transient errors, and n is
  -- at most the number of the delays, the text is sent with that attempt.
  pub send_text_with_transient_retry_sends :
      (n : ℕ) (w : Wire)
      → n ≤ length s.delays
      → ((i : ℕ) → i < n → FailsAt w i)
      → s.send (w.calls + n) p ≡ none
      → let (w', o) = send_text_with_transient_retry s run p kind attempt w in
        (o ≡ sent) × (w'.calls ≡ w.calls + suc n)
  unfolding send_text_with_transient_retry
  send_text_with_transient_retry_sends n w = send_along_lem s.delays 0 n w
