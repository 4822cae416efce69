-- ===== src/Delivery/Consistent.antt =====
-- Every run that the delivery begins has consistent items, as do those that are there.
use mossbridge.Delivery.State.{Target, Run, Delivery, build_run_key, apply_thread_reply_target}
use mossbridge.Delivery.Targets.{
  consume_suppressed_run, consume_queued_reply_target, take_queued, queue_of, count_of,
}
use mossbridge.Delivery.Runs.{
  apply_if, attach_turn_target, attach_queued_target, take_prefix, attach_binding,
  attach_reply_target, new_run, create_run, ensure_run_state, dispose_run_state, is_one_of,
}
use mossbridge.Delivery.Items.{keys, Distinct, IsConsistent}
use mossbridge.Prelude.{
  either_way, ℕ, ◌+◌, ◌≡◌, refl, sym, ap, ◌∙◌, subst, inl, inr, Bool, true, ◌||◌, not, Option, none,
  some, List, [], ◌∷◌, Bool-cases, Option-cases, Text, is_empty, trim, Dict, get, put, remove,
  or_else, first_some, eq_text, All, ◌==◌,
}

-- Another state of a run with the same items.
pub record Keeps (run run' : Run) : Type 0 where
  pub items : run'.items ≡ run.items
  pub item_order : run'.item_order ≡ run.item_order

pub consistent_still : (run run' : Run) → Keeps run run' → IsConsistent run → IsConsistent run'
consistent_still run run' k c = record {
  named = ap (λ ids. is_one_of ids []) k.item_order ∙ c.named;
  ordered = k.item_order ∙ c.ordered ∙ ap keys (sym k.items);
  distinct = subst Distinct (sym k.item_order) c.distinct;
}

pub same_run : (run : Run) → Keeps run run
same_run run = record { items = refl; item_order = refl }

pub then_keeps : (a b c : Run) → Keeps a b → Keeps b c → Keeps a c
then_keeps a b c h k = record {
  items = k.items ∙ h.items;
  item_order = k.item_order ∙ h.item_order;
}

-- Nor does looking for its target change the runs.
pub record Attached (d : Delivery) (run : Run) (x : Delivery × Run) : Type 0 where
  pub keeps : Keeps run x.1
  pub runs : x.0.state_by_run_key ≡ d.state_by_run_key

same_delivery : (d : Delivery) (run : Run) → Attached d run (d, run)
same_delivery d run = record { keeps = same_run run; runs = refl }

apply_if-Keeps : (run : Run) (t : Option Target) → Keeps run (apply_if run t)
unfolding apply_thread_reply_target
apply_if-Keeps run none = same_run run
apply_if-Keeps run (some t) = record { items = refl; item_order = refl }

attach_turn-Keeps : (d : Delivery) (run : Run) → Keeps run (attach_turn_target d run)
unfolding attach_turn_target
attach_turn-Keeps d run =
    elim (Bool-cases (run.thread_reply_target_attached || is_empty run.turn_id)) [
      | inl e ↦ rw e (same_run run)
      | inr e ↦ rw e (
          apply_if-Keeps run
            (get (build_run_key run.thread_id run.turn_id) d.reply_target_by_turn_key))
    ]

take_queued-runs :
    (d : Delivery) (thread : Text) (queue : List Target)
    → (take_queued d thread queue).0.state_by_run_key ≡ d.state_by_run_key
unfolding take_queued
take_queued-runs d thread [] = refl
take_queued-runs d thread (t ∷ queue) = refl

attach_queued-Attached : (d : Delivery) (run : Run) → Attached d run (attach_queued_target d run)
unfolding attach_queued_target consume_queued_reply_target
attach_queued-Attached d run =
    let queue = queue_of run.thread_id d.reply_target_queue_by_thread_id in
    either_way (Attached d run) run.thread_reply_target_attached (same_delivery d run) (record {
      keeps = apply_if-Keeps run (take_queued d run.thread_id queue).1;
      runs = take_queued-runs d run.thread_id queue;
    })

take_prefix-Attached : (d : Delivery) (run : Run) (b : Text) → Attached d run (take_prefix d run b)
unfolding take_prefix
take_prefix-Attached d run b =
    elim (Bool-cases (
      not (is_empty run.deferred_reply_prefix)
      || is_empty (or_else (get b d.deferred_reply_prefix_by_binding_key) []))) [
        | inl e ↦ rw (take_prefix, e) (same_delivery d run)
        | inr e ↦
            rw (take_prefix, e)
              (record { keeps = record { items = refl; item_order = refl }; runs = refl })
      ]

attach_binding-Attached :
    (d : Delivery) (run : Run) (b : Option Text) → Attached d run (attach_binding d run b)
unfolding attach_binding
attach_binding-Attached d run none = same_delivery d run
attach_binding-Attached d run (some b) = elim (Bool-cases (is_empty b)) [
  | inl e ↦ rw (attach_binding, e) (same_delivery d run)
  | inr e ↦
      let bound : Run = record run {
        binding_key = b;
        reply_target = first_some run.reply_target (get b d.reply_target_by_binding_key);
      } in
      let taken = take_prefix-Attached d bound b in
      rw (attach_binding, e)
        (record {
          keeps = record { items = taken.keeps.items; item_order = taken.keeps.item_order };
          runs = taken.runs;
        })
]

pub attach_reply-Attached :
    (find : Text → Option Text) (d : Delivery) (run : Run)
    → Attached d run (attach_reply_target find d run)
unfolding attach_reply_target
attach_reply-Attached find d run =
    let r1 = attach_turn_target d run in
    let q = attach_queued_target d r1 in
    let h = attach_queued-Attached d r1 in
    let k = attach_binding-Attached q.0 q.1 (find run.thread_id) in
    record {
      keeps =
          then_keeps run r1 (attach_binding q.0 q.1 (find run.thread_id)).1
            (attach_turn-Keeps d run)
            (then_keeps r1 q.1 (attach_binding q.0 q.1 (find run.thread_id)).1 h.keeps k.keeps);
      runs = k.runs ∙ h.runs;
    }

-- Every run has consistent items.
abbrev pub AllConsistent : Dict Run → Type 0
AllConsistent runs = All (λ e. IsConsistent e.1) runs

abbrev pub AreConsistent : Delivery → Type 0
AreConsistent d = AllConsistent d.state_by_run_key

pub put_consistent :
    (k : Text) (run : Run) (m : Dict Run)
    → IsConsistent run
    → AllConsistent m
    → AllConsistent (put k run m)
unfolding put
put_consistent k run [] c h = (c, tt)
put_consistent k run ((j, r) ∷ m) c h = elim (Bool-cases (eq_text j k)) [
  | inl e ↦ rw e (c, h.1)
  | inr e ↦ rw e (h.0, put_consistent k run m c h.1)
]

remove_consistent : (k : Text) (m : Dict Run) → AllConsistent m → AllConsistent (remove k m)
unfolding remove
remove_consistent k [] h = tt
remove_consistent k ((j, r) ∷ m) h = elim (Bool-cases (eq_text j k)) [
  | inl e ↦ rw e (remove_consistent k m h.1)
  | inr e ↦ rw e (h.0, remove_consistent k m h.1)
]

get_consistent :
    (k : Text) (m : Dict Run) (run : Run) → AllConsistent m → get k m ≡ some run → IsConsistent run
unfolding get
get_consistent k [] run h e = absurd (cc e)
get_consistent k ((j, r) ∷ m) run h e = elim (Bool-cases (eq_text j k)) [
  | inl q ↦ subst IsConsistent (found q) h.0
  | inr q ↦ get_consistent k m run h.1 (rw q at e)
]
  where
    found : eq_text j k ≡ true → r ≡ run
    found q = cc (rw q at e)

new_run-IsConsistent :
    (thread turn : Text) (suppress : Bool) (n : ℕ) → IsConsistent (new_run thread turn suppress n)
new_run-IsConsistent thread turn suppress n = record { named = refl; ordered = refl; distinct = tt }

consume_suppressed-runs :
    (d : Delivery) (thread : Text)
    → (consume_suppressed_run d thread).0.state_by_run_key ≡ d.state_by_run_key
unfolding consume_suppressed_run
consume_suppressed-runs d thread =
    let t = trim thread in
    let count = count_of t d.suppressed_run_count_by_thread_id in
    either_way (λ (x : Delivery × Bool). x.0.state_by_run_key ≡ d.state_by_run_key)
      (is_empty t || count == 0) refl refl

-- A delivery whose runs are consistent, with a run of it.
pub record Ready (x : Delivery × Run) : Type 0 where
  pub runs : AreConsistent x.0
  pub run : IsConsistent x.1

create_run-Ready :
    (find : Text → Option Text) (d : Delivery) (thread turn : Text)
    → AreConsistent d
    → Ready (create_run find d thread turn)
unfolding create_run
create_run-Ready find d thread turn h = record {
  runs =
      put_consistent run.run_key run attached.0.state_by_run_key consistent
        (subst AllConsistent (sym (a.runs ∙ consume_suppressed-runs d thread)) h);
  run = consistent;
}
  where
    d1 : Delivery
    d1 = (consume_suppressed_run d thread).0

    started : Run
    started = new_run thread turn (consume_suppressed_run d thread).1 (d1.run_sequence + 1)

    counted : Delivery
    counted = record d1 { run_sequence = d1.run_sequence + 1 }

    attached : Delivery × Run
    attached = attach_reply_target find counted started

    run : Run
    run = attached.1

    a : Attached counted started attached
    a = attach_reply-Attached find counted started

    consistent : IsConsistent run
    consistent =
        consistent_still started run a.keeps (
          new_run-IsConsistent thread turn (consume_suppressed_run d thread).1
            (d1.run_sequence + 1))

pub ensure_run_state-Ready :
    (find : Text → Option Text) (d : Delivery) (thread turn : Text)
    → AreConsistent d
    → Ready (ensure_run_state find d thread turn)
unfolding ensure_run_state
ensure_run_state-Ready find d thread turn h =
    elim (Option-cases (get (build_run_key thread turn) d.state_by_run_key)) [
      | inl e ↦ rw (ensure_run_state, e) (create_run-Ready find d thread turn h)
      | inr (run, e) ↦
          rw (ensure_run_state, e)
            (record {
              runs = h;
              run = get_consistent (build_run_key thread turn) d.state_by_run_key run h e;
            })
    ]

pub dispose_run-AreConsistent :
    (d : Delivery) (k : Text) → AreConsistent d → AreConsistent (dispose_run_state d k)
unfolding dispose_run_state
dispose_run-AreConsistent d k h =
    either_way AreConsistent (is_empty (trim k)) h (remove_consistent (trim k) d.state_by_run_key h)
