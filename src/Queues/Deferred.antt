-- ===== src/Queues/Deferred.antt =====
-- src/core/deferred-system-reply-store.js. A saved time is what `Date.parse` reads, none where it
-- reads nothing, and the numbers are whole, none where they are missing or negative. The fields
-- `immediateSent` and `deferred` are always false and true, and are left out.
pub mod Merge
pub mod Fields
pub mod Slots
pub mod Laws
use mossbridge.Prelude.{
  max, includes, trim, is_empty, eq_text, or_text, codes, Text, ltb, not, ◌&&◌, ◌||◌, if◌then◌else◌,
  ◌+◌, first_some,
}
use mossbridge.Prelude.{
  ℕ, List, [], ◌∷◌, ◌++◌, Option, none, some, Bool, true, false, map, keep, any, length, Found,
  split_first, replaced, sort_by,
}
use mossbridge.Js.{Value, str, other, normalize_text}
use mossbridge.Queues.Shape.{part, by_time}
use mossbridge.Queues.System.{or_now}
use mossbridge.Queues.Stored.{load_sorted}

pub data Kind : Type 0 where
  system_reply plain_reply : Kind

pub data ReplayPolicy : Type 0 where
  causal_message_only next_inbound : ReplayPolicy

pub record RawReply : Type 0 where
  pub id : Value
  pub account_id : Value
  pub sender_id : Value
  pub thread_id : Value
  pub text : Value
  pub kind : Value
  pub dedupe_key : Value
  pub created_at : Option ℕ
  pub failed_at : Option ℕ
  pub last_error : Value
  pub defer_reason : Value
  pub prefix_delivered : Bool
  pub prefix_delivered_at : Option ℕ
  pub context_token_age_ms : Option ℕ
  pub causal_message_id : Value
  pub redispatch_generation : Option ℕ
  pub replay_policy : Value

pub record Reply : Type 0 where
  pub id : Text
  pub account_id : Text
  pub sender_id : Text
  pub thread_id : Text
  pub text : Text
  pub kind : Kind
  pub dedupe_key : Text
  pub created_at : ℕ
  pub failed_at : ℕ
  pub last_error : Text
  pub defer_reason : Text
  pub prefix_delivered : Bool
  pub prefix_delivered_at : Option ℕ
  pub context_token_age_ms : Option ℕ
  pub causal_message_id : Text
  pub redispatch_generation : ℕ
  pub replay_policy : ReplayPolicy

abbrev pub kind_text : Kind → Text
kind_text system_reply = codes "system_reply"
kind_text plain_reply = codes "plain_reply"

abbrev pub policy_text : ReplayPolicy → Text
policy_text causal_message_only = codes "causal_message_only"
policy_text next_inbound = codes "next_inbound"

unfoldable pub normalize_deferred_reply_kind : Value → Kind
normalize_deferred_reply_kind v =
    if eq_text (normalize_text v) (codes "system_reply") then system_reply else plain_reply

-- `replayPolicy === "causal_message_only"`, not trimmed.
unfoldable pub normalize_replay_policy : Value → ReplayPolicy
normalize_replay_policy (str t) =
    if eq_text t (codes "causal_message_only") then causal_message_only else next_inbound
normalize_replay_policy other = next_inbound

unfoldable pub normalized : ℕ → RawReply → Reply
normalized now r = record {
  id = normalize_text r.id;
  account_id = normalize_text r.account_id;
  sender_id = normalize_text r.sender_id;
  thread_id = normalize_text r.thread_id;
  text = normalize_text r.text;
  kind = normalize_deferred_reply_kind r.kind;
  dedupe_key = normalize_text r.dedupe_key;
  created_at = or_now r.created_at now;
  failed_at = or_now r.failed_at now;
  last_error = normalize_text r.last_error;
  defer_reason = normalize_text r.defer_reason;
  prefix_delivered = r.prefix_delivered;
  prefix_delivered_at = r.prefix_delivered_at;
  context_token_age_ms = r.context_token_age_ms;
  causal_message_id = normalize_text r.causal_message_id;
  redispatch_generation = or_now r.redispatch_generation 0;
  replay_policy = normalize_replay_policy r.replay_policy;
}

unfoldable pub lacks_field : Reply → Bool
lacks_field r = is_empty r.id || is_empty r.account_id || is_empty r.sender_id || is_empty r.text

unfoldable pub normalize_deferred_system_reply : ℕ → RawReply → Option Reply
normalize_deferred_system_reply now raw =
    let r = normalized now raw in if lacks_field r then none else some r

-- A reply as `JSON.stringify` writes it.
unfoldable pub saved : Reply → RawReply
saved r = record {
  id = str r.id;
  account_id = str r.account_id;
  sender_id = str r.sender_id;
  thread_id = str r.thread_id;
  text = str r.text;
  kind = str (kind_text r.kind);
  dedupe_key = str r.dedupe_key;
  created_at = some r.created_at;
  failed_at = some r.failed_at;
  last_error = str r.last_error;
  defer_reason = str r.defer_reason;
  prefix_delivered = r.prefix_delivered;
  prefix_delivered_at = r.prefix_delivered_at;
  context_token_age_ms = r.context_token_age_ms;
  causal_message_id = str r.causal_message_id;
  redispatch_generation = some r.redispatch_generation;
  replay_policy = str (policy_text r.replay_policy);
}

unfoldable pub same_kind : Kind → Kind → Bool
same_kind system_reply system_reply = true
same_kind plain_reply plain_reply = true
same_kind _ _ = false

-- The replies that `findCoalescableReplyIndex` takes for one.
unfoldable pub same_slot : Reply → Reply → Bool
same_slot incoming r =
    eq_text r.account_id incoming.account_id
    && eq_text r.sender_id incoming.sender_id
    && eq_text r.thread_id incoming.thread_id
    && same_kind r.kind incoming.kind
    && eq_text r.dedupe_key incoming.dedupe_key

unfoldable pub find_coalescable_reply : List Reply → Reply → Option (Found Reply)
find_coalescable_reply replies incoming =
    if is_empty incoming.dedupe_key then none else split_first (same_slot incoming) replies

unfoldable pub merge_deferred_reply_text : Text → Text → Text
merge_deferred_reply_text existing incoming =
    let left = trim existing in
    let right = trim incoming in
    if is_empty left
    then right
    else if is_empty right || eq_text left right || includes left right
    then left
    else if includes right left
    then right
    else left ++ (10 ∷ 10 ∷ [] ++ right)

unfoldable pub is_causal : ReplayPolicy → Bool
is_causal causal_message_only = true
is_causal next_inbound = false

unfoldable pub merged : Reply → Reply → Reply
merged existing r = record existing {
  text = merge_deferred_reply_text existing.text r.text;
  failed_at = r.failed_at;
  last_error = or_text r.last_error existing.last_error;
  defer_reason = or_text r.defer_reason existing.defer_reason;
  prefix_delivered = existing.prefix_delivered || r.prefix_delivered;
  prefix_delivered_at = first_some r.prefix_delivered_at existing.prefix_delivered_at;
  context_token_age_ms = first_some r.context_token_age_ms existing.context_token_age_ms;
  causal_message_id = or_text r.causal_message_id existing.causal_message_id;
  redispatch_generation = max r.redispatch_generation existing.redispatch_generation;
  replay_policy =
      if is_causal r.replay_policy || is_causal existing.replay_policy
      then causal_message_only
      else next_inbound;
}

unfoldable pub is_system : Kind → Bool
is_system system_reply = true
is_system plain_reply = false

unfoldable pub older_than : Option ℕ → ℕ → ℕ → Bool
older_than none anchor now = false
older_than (some max_age) anchor now = ltb 0 max_age && ltb (max_age + anchor) now

unfoldable pub is_expired_deferred_system_reply : ℕ → Option ℕ → Reply → Bool
unfolding older_than
is_expired_deferred_system_reply now max_age r =
    (is_system r.kind || is_causal r.replay_policy) && older_than max_age r.failed_at now

-- `le_id` is `left.localeCompare(right) <= 0` on ids.
module _ (le_id : Text → Text → Bool) where
  unfoldable pub le_reply : Reply → Reply → Bool
  le_reply = by_time (λ r. r.created_at) (λ r. r.id) le_id

  unfoldable pub load : ℕ → List RawReply → List Reply
  load = load_sorted normalize_deferred_system_reply saved le_reply

  abbrev pub save : List Reply → List RawReply
  save = map saved

  unfoldable pub placed : List Reply → Option (Found Reply) → Reply → List Reply × Reply
  placed replies none r = (replies ++ r ∷ [], r)
  placed replies (some f) r = (replaced f (merged f.entry r), merged f.entry r)

  unfoldable pub pushed : List RawReply → List Reply → Option Reply → List RawReply × Option Reply
  pushed file replies none = (file, none)
  pushed file replies (some r) =
      let (next, result) = placed replies (find_coalescable_reply replies r) r in
      (save (sort_by le_reply next), some result)

  -- `none` is the error "invalid deferred system reply".
  unfoldable pub enqueue : ℕ → List RawReply → RawReply → List RawReply × Option Reply
  unfolding pushed
  enqueue now file raw = pushed file (load now file) (normalize_deferred_system_reply now raw)

  -- The file is written only if some reply was taken out.
  unfoldable pub unless_empty : List Reply → List Reply → List RawReply → List RawReply
  unless_empty [] pending file = file
  unless_empty (_ ∷ _) pending file = save pending

  unfoldable pub is_of_sender : Text → Text → Reply → Bool
  is_of_sender account sender r = eq_text r.account_id account && eq_text r.sender_id sender

  -- A reply of a causal message waits for that message.
  unfoldable pub waits_for_cause : Text → Reply → Bool
  waits_for_cause causal r =
      is_causal r.replay_policy && (is_empty causal || not (eq_text r.causal_message_id causal))

  -- The loop of `drainForSenderWithExpiry`: drained, expired and pending replies.
  unfoldable pub triage :
      (Reply → Bool)
      → (Reply → Bool)
      → (Reply → Bool)
      → List Reply
      → List Reply × List Reply × List Reply
  triage mine old waits [] = ([], [], [])
  triage mine old waits (r ∷ rs) =
      let (drained, expired, pending) = triage mine old waits rs in
      if mine r
      then if old r
        then (drained, r ∷ expired, pending)
        else if waits r
        then (drained, expired, r ∷ pending)
        else (r ∷ drained, expired, pending)
      else (drained, expired, r ∷ pending)

  unfoldable pub drain_for_sender_with_expiry :
      ℕ → List RawReply → Value → Value → Option ℕ → Value → List RawReply × List Reply × List Reply
  drain_for_sender_with_expiry now file account sender max_age causal =
      let (drained, expired, pending) =
        triage (is_of_sender (normalize_text account) (normalize_text sender))
          (is_expired_deferred_system_reply now max_age) (waits_for_cause (normalize_text causal))
          (load now file) in
      (unless_empty (drained ++ expired) pending file, drained, expired)

  unfoldable pub drain_for_sender : ℕ → List RawReply → Value → Value → List RawReply × List Reply
  drain_for_sender now file account sender =
      let (file', drained, expired) =
        drain_for_sender_with_expiry now file account sender none (str []) in
      (file', drained)

  -- The replies of a superseded run: those with the key, or those of the thread if no key is given.
  unfoldable pub is_superseded : Text → Text → Reply → Bool
  is_superseded thread key r =
      if is_empty key
      then not (is_empty thread) && eq_text r.thread_id thread
      else eq_text r.dedupe_key key

  unfoldable pub discard_for_superseded_run :
      ℕ → List RawReply → Value → Value → List RawReply × List Reply
  discard_for_superseded_run now file thread key =
      let (discarded, pending) =
        part (is_superseded (normalize_text thread) (normalize_text key)) (load now file) in
      (unless_empty discarded pending file, discarded)

  unfoldable pub count_for_sender : ℕ → List RawReply → Value → Value → ℕ
  count_for_sender now file account sender =
      length (keep (is_of_sender (normalize_text account) (normalize_text sender)) (load now file))

  unfoldable pub has_pending_for_sender : ℕ → List RawReply → Value → Value → Bool
  has_pending_for_sender now file account sender = ltb 0 (count_for_sender now file account sender)
