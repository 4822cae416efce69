-- ===== src/Delivery/Waiting.antt =====
-- The targets that wait for the runs of a thread: the first that came is the first that is taken.
use mossbridge.Delivery.State.{Target, Run, Delivery}
use mossbridge.Delivery.Targets.{
  queue_of, put_queue, first_target, is_nothing_queued, waits_for_target, le_sequence, bind_each,
  take_queued, consume_queued_reply_target, queue_target,
  bind_queued_reply_targets_to_active_thread_runs,
}
use mossbridge.Prelude.{
  either_way, ◌≡◌, refl, ap, ◌∙◌, Bool, true, false, Option, none, some, List, [], ◌∷◌, ◌++◌, map,
  keep, drop, sort_by, if◌then◌else◌, Text, is_empty, eq_text, eq_text_refl, Dict, get, put,
  get-put, get-remove, or_else,
}

queue-put :
    (k j : Text) (q : List Target) (m : Dict (List Target))
    → queue_of j (put_queue k q m) ≡ (if eq_text k j then q else queue_of j m)
queue-put k j [] m = ap (λ o. or_else o []) (get-remove k j m) ∙ spread (eq_text k j)
  where
    spread :
        (b : Bool) → or_else (if b then none else get j m) [] ≡ (if b then [] else queue_of j m)
    spread true = refl
    spread false = refl
queue-put k j (t ∷ q) m = ap (λ o. or_else o []) (get-put k j (t ∷ q) m) ∙ spread (eq_text k j)
  where
    spread :
        (b : Bool)
        → or_else (if b then some (t ∷ q) else get j m) [] ≡ (if b then t ∷ q else queue_of j m)
    spread true = refl
    spread false = refl

queue-put_same :
    (k : Text) (q : List Target) (m : Dict (List Target)) → queue_of k (put_queue k q m) ≡ q
queue-put_same k q m = queue-put k k q m ∙ chosen (eq_text k k) (eq_text_refl k)
  where
    chosen : (b : Bool) → b ≡ true → (if b then q else queue_of k m) ≡ q
    chosen true h = refl
    chosen false h = absurd (cc h)

-- The queue of a thread and the runs, as they were.
record SameQueue (thread : Text) (d d' : Delivery) : Type 0 where
  queue :
      queue_of thread d'.reply_target_queue_by_thread_id
      ≡ queue_of thread d.reply_target_queue_by_thread_id
  runs : d'.state_by_run_key ≡ d.state_by_run_key

bind_idle :
    (d : Delivery) (thread : Text)
    → keep (waits_for_target thread) (map (λ e. e.1) d.state_by_run_key) ≡ []
    → SameQueue thread d (bind_queued_reply_targets_to_active_thread_runs d thread)
unfolding bind_queued_reply_targets_to_active_thread_runs sort_by bind_each
bind_idle d thread idle =
    let queue = queue_of thread d.reply_target_queue_by_thread_id in
    either_way (SameQueue thread d) (is_nothing_queued queue) (record { queue = refl; runs = refl })
      (record {
        queue =
            ap
              (λ (states : List Run). queue_of thread (
                put_queue thread (bind_each states queue d.state_by_run_key).1
                  d.reply_target_queue_by_thread_id))
              none_waits
            ∙ queue-put_same thread queue d.reply_target_queue_by_thread_id;
        runs = ap (λ (states : List Run). (bind_each states queue d.state_by_run_key).0) none_waits;
      })
  where
    none_waits :
        sort_by le_sequence (keep (waits_for_target thread) (map (λ e. e.1) d.state_by_run_key))
        ≡ []
    none_waits = ap (sort_by le_sequence) idle

-- The first of the queue is taken, the others are left.
record Taken (thread : Text) (queue : List Target) (d : Delivery) (x : Delivery × Option Target)
    : Type 0 where
  first : x.1 ≡ first_target queue
  others : queue_of thread x.0.reply_target_queue_by_thread_id ≡ drop 1 queue
  runs : x.0.state_by_run_key ≡ d.state_by_run_key

take_queued-Taken :
    (d : Delivery) (thread : Text) (queue : List Target)
    → queue_of thread d.reply_target_queue_by_thread_id ≡ queue
    → Taken thread queue d (take_queued d thread queue)
unfolding take_queued
take_queued-Taken d thread [] h = record { first = refl; others = h; runs = refl }
take_queued-Taken d thread (t ∷ queue) h = record {
  first = refl;
  others = queue-put_same thread queue d.reply_target_queue_by_thread_id;
  runs = refl;
}

consume-Taken :
    (d : Delivery) (thread : Text)
    → Taken thread
        (queue_of thread d.reply_target_queue_by_thread_id)
        d
        (consume_queued_reply_target d thread)
unfolding consume_queued_reply_target
consume-Taken d thread =
    take_queued-Taken d thread (queue_of thread d.reply_target_queue_by_thread_id) refl

-- If no run of a thread waits for a target, a target that is queued for it comes after those that
-- are queued already: the next to be taken is the first of them all, and the others stay in their
-- order.
pub consume_queued-queue_target :
    (d : Delivery) (thread : Text) (t : Target)
    → is_empty thread ≡ false
    → keep (waits_for_target thread) (map (λ e. e.1) d.state_by_run_key) ≡ []
    → let queue = queue_of thread d.reply_target_queue_by_thread_id in
      let (d', taken) = consume_queued_reply_target (queue_target d thread (some t)) thread in
      (taken ≡ first_target (queue ++ t ∷ []))
      × (queue_of thread d'.reply_target_queue_by_thread_id ≡ drop 1 (queue ++ t ∷ []))
      × (d'.state_by_run_key ≡ d.state_by_run_key)
unfolding queue_target
consume_queued-queue_target d thread t h idle =
    rw h (k.first ∙ ap first_target whole, k.others ∙ ap (drop 1) whole, k.runs ∙ same.runs)
  where
    queue : List Target
    queue = queue_of thread d.reply_target_queue_by_thread_id

    queued : Delivery
    queued = record d {
      reply_target_queue_by_thread_id =
          put thread (queue ++ t ∷ []) d.reply_target_queue_by_thread_id;
    }

    bound : Delivery
    bound = bind_queued_reply_targets_to_active_thread_runs queued thread

    same : SameQueue thread queued bound
    same = bind_idle queued thread idle

    k :
        Taken thread
          (queue_of thread bound.reply_target_queue_by_thread_id)
          bound
          (consume_queued_reply_target bound thread)
    k = consume-Taken bound thread

    whole : queue_of thread bound.reply_target_queue_by_thread_id ≡ queue ++ t ∷ []
    whole =
        same.queue
        ∙ ap (λ o. or_else o [])
            (get-put thread thread (queue ++ t ∷ []) d.reply_target_queue_by_thread_id)
        ∙ found (eq_text thread thread) (eq_text_refl thread)
      where
        found :
            (b : Bool)
            → b ≡ true
            → or_else
                (if b then some (queue ++ t ∷ []) else get thread d.reply_target_queue_by_thread_id)
                []
              ≡ queue ++ t ∷ []
        found true e = refl
        found false e = absurd (cc e)
