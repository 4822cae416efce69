-- ===== src/Queues/Deferred/Fields.antt =====
-- The fields of a stored reply: trimmed, and four of them not empty. Such a reply is read back as it
-- was written, and both operations that write one keep it so.
use mossbridge.Prelude.{
  ℕ, Text, [], ◌∷◌, trim, is_empty, or_text, some, false, ◌||◌, ◌≡◌, refl, inl, inr, Bool-cases,
  arith, subst,
}
use mossbridge.Js.{str, normalize_text, trim-normalize_text}
use mossbridge.Queues.Deferred.{
  Kind, ReplayPolicy, RawReply, Reply, kind_text, policy_text, normalize_deferred_reply_kind,
  normalize_replay_policy, normalized, lacks_field, normalize_deferred_system_reply, saved, merged,
  merge_deferred_reply_text,
}
use mossbridge.Prelude.{eq_text}
use mossbridge.Queues.Deferred.Merge.{IsMerge-IsMerge}

pub record IsNormal (r : Reply) : Type 0 where
  pub id : trim r.id ≡ r.id
  pub account_id : trim r.account_id ≡ r.account_id
  pub sender_id : trim r.sender_id ≡ r.sender_id
  pub thread_id : trim r.thread_id ≡ r.thread_id
  pub text : trim r.text ≡ r.text
  pub dedupe_key : trim r.dedupe_key ≡ r.dedupe_key
  pub last_error : trim r.last_error ≡ r.last_error
  pub defer_reason : trim r.defer_reason ≡ r.defer_reason
  pub causal_message_id : trim r.causal_message_id ≡ r.causal_message_id
  pub whole : lacks_field r ≡ false

kind_read : (k : Kind) → normalize_deferred_reply_kind (str (kind_text k)) ≡ k
unfolding normalize_deferred_reply_kind normalize_text
kind_read Kind.system_reply = unfold trim eq_text in refl
kind_read Kind.plain_reply = unfold trim eq_text in refl

policy_read : (p : ReplayPolicy) → normalize_replay_policy (str (policy_text p)) ≡ p
unfolding normalize_replay_policy
policy_read ReplayPolicy.causal_message_only = unfold eq_text in refl
policy_read ReplayPolicy.next_inbound = unfold eq_text in refl

fields_read : (now : ℕ) (r : Reply) → IsNormal r → normalized now (saved r) ≡ r
unfolding normalized saved normalize_text
fields_read now r n =
    rw
      (
        kind_read r.kind,
        policy_read r.replay_policy,
        n.id,
        n.account_id,
        n.sender_id,
        n.thread_id,
        n.text,
        n.dedupe_key,
        n.last_error,
        n.defer_reason,
        n.causal_message_id,
      )
      refl

pub IsNormal-saved :
    (now : ℕ) (r : Reply) → IsNormal r → normalize_deferred_system_reply now (saved r) ≡ some r
unfolding normalize_deferred_system_reply
IsNormal-saved now r n = rw (fields_read now r n, n.whole) refl

normalized-IsNormal :
    (now : ℕ) (raw : RawReply)
    → lacks_field (normalized now raw) ≡ false
    → IsNormal (normalized now raw)
unfolding normalized
normalized-IsNormal now raw h = record {
  id = trim-normalize_text raw.id;
  account_id = trim-normalize_text raw.account_id;
  sender_id = trim-normalize_text raw.sender_id;
  thread_id = trim-normalize_text raw.thread_id;
  text = trim-normalize_text raw.text;
  dedupe_key = trim-normalize_text raw.dedupe_key;
  last_error = trim-normalize_text raw.last_error;
  defer_reason = trim-normalize_text raw.defer_reason;
  causal_message_id = trim-normalize_text raw.causal_message_id;
  whole = h;
}

-- An accepted reply has its fields in order.
pub normalize-IsNormal :
    (now : ℕ) (raw : RawReply) (r : Reply)
    → normalize_deferred_system_reply now raw ≡ some r
    → IsNormal r
unfolding normalize_deferred_system_reply
normalize-IsNormal now raw r h = elim (Bool-cases (lacks_field (normalized now raw))) [
  | inl e ↦ absurd (cc (rw e at h))
  | inr e ↦
      let q : normalized now raw ≡ r = cc (rw e at h) in
      subst IsNormal q (normalized-IsNormal now raw e)
]

trim-or_text : (a b : Text) → trim a ≡ a → trim b ≡ b → trim (or_text a b) ≡ or_text a b
unfolding or_text
trim-or_text [] b h k = k
trim-or_text (c ∷ a) b h k = h

-- Merging keeps the fields in order.
pub merged-IsNormal : (e r : Reply) → IsNormal e → IsNormal r → IsNormal (merged e r)
unfolding merged lacks_field
merged-IsNormal e r n m =
    let g = IsMerge-IsMerge e.text r.text in
    record {
      id = n.id;
      account_id = n.account_id;
      sender_id = n.sender_id;
      thread_id = n.thread_id;
      text = g.trimmed;
      dedupe_key = n.dedupe_key;
      last_error = trim-or_text r.last_error e.last_error m.last_error n.last_error;
      defer_reason = trim-or_text r.defer_reason e.defer_reason m.defer_reason n.defer_reason;
      causal_message_id =
          trim-or_text r.causal_message_id e.causal_message_id m.causal_message_id
            n.causal_message_id;
      whole =
          named e (merge_deferred_reply_text e.text r.text) n.whole (λ t. g.named (rw (n.text) t));
    }
  where
    named :
        (e : Reply) (t : Text)
        → lacks_field e ≡ false
        → (is_empty e.text ≡ false → is_empty t ≡ false)
        → (is_empty e.id || is_empty e.account_id || is_empty e.sender_id || is_empty t) ≡ false
    named e t h k = ground (arith, k)
