-- ===== src/Delivery/Late.antt =====
-- The events of a superseded run's thread: they deliver nothing.
use mossbridge.Delivery.State.{Run, RawTarget, SupersededRun, Delivery, build_run_key}
use mossbridge.Delivery.Targets.{
  superseded_record, mark_run_superseded, resolve_superseded_run, trim_map, max_entries,
}
use mossbridge.Delivery.Runs.{new_run, dispose_run_state}
use mossbridge.Delivery.Actions.{Reader}
use mossbridge.Delivery.Sending.{Services, Wire, record_outbound_delivery}
use mossbridge.Delivery.Attempts.{Told, record_outbound-Told}
use mossbridge.Delivery.Events.{
  late_payload, type_text, Event, World, handle_runtime_event, handle_all, handle_late,
  handle_resolved, record_late_old_turn_suppressed,
}
use mossbridge.Prelude.{
  or_text, codes, trim, either_way, ℕ, suc, ◌≤◌, ◌≡◌, refl, sym, ap, ◌∙◌, subst, inl, inr, true,
  false, Option, none, some, List, [], ◌∷◌, ◌++◌, arith, Bool-cases, if◌then◌else◌, Text, is_empty,
  eq_text, eq_text_refl, Dict, get, put, get-put, is_some, first_some, All, length, last_n,
  last_n_short, last_n-snoc, any, ◌==◌, trim, or_text,
}
use mossbridge.Js.{Value, str, normalize_text, normalize_text-normalize_text}

-- An entry that is put into a map of no more than the most entries is still there after the trim.
put_new {ℓ} :
    {V : Type ℓ} (k : Text) (v : V) (m : Dict V)
    → is_some (get k m) ≡ false
    → put k v m ≡ m ++ (k, v) ∷ []
unfolding put get
put_new k v [] h = refl
put_new k v ((j, w) ∷ m) h = elim (Bool-cases (eq_text j k)) [
  | inl e ↦ absurd (cc (rw e at h))
  | inr e ↦ rw e (ap (λ (l : Dict _). (j, w) ∷ l) (put_new k v m (rw e at h)))
]

length-put_known {ℓ} :
    {V : Type ℓ} (k : Text) (v : V) (m : Dict V)
    → is_some (get k m) ≡ true
    → length (put k v m) ≡ length m
unfolding put get
length-put_known k v [] h = absurd (cc h)
length-put_known k v ((j, w) ∷ m) h = elim (Bool-cases (eq_text j k)) [
  | inl e ↦ rw e refl
  | inr e ↦ rw e (ap suc (length-put_known k v m (rw e at h)))
]

get-last {ℓ} :
    {V : Type ℓ} (k : Text) (v : V) (m : Dict V) → is_some (get k (m ++ (k, v) ∷ [])) ≡ true
unfolding get
get-last k v [] = rw (eq_text_refl k) refl
get-last k v ((j, w) ∷ m) = elim (Bool-cases (eq_text j k)) [
  | inl e ↦ rw e refl
  | inr e ↦ rw e (get-last k v m)
]

get-trim_map {ℓ} :
    {V : Type ℓ} (k : Text) (v : V) (m : Dict V)
    → length m ≤ max_entries
    → is_some (get k (trim_map (put k v m))) ≡ true
get-trim_map k v m h = elim (Bool-cases (is_some (get k m))) [
  | inl e ↦
      ap (λ (l : Dict _). is_some (get k l))
        (last_n_short max_entries (put k v m) (omega (arith, h, length-put_known k v m e)))
      ∙ ap is_some (get-put k k v m)
      ∙ there
  | inr e ↦
      ap (λ (l : Dict _). is_some (get k (trim_map l))) (put_new k v m e)
      ∙ ap (λ (l : Dict _). is_some (get k l)) (last_n-snoc 1023 m (k, v))
      ∙ get-last k v (last_n 1023 m)
]
  where
    there : is_some (if eq_text k k then some v else get k m) ≡ true
    there = rw (eq_text_refl k) refl

-- The thread has a record of a superseded run.
abbrev IsLate : Text → Delivery → Type 0
IsLate t d = is_some (get t d.superseded_run_by_thread_id) ≡ true

first_some_right {ℓ} :
    {V : Type ℓ} (a b : Option V) → is_some b ≡ true → is_some (first_some a b) ≡ true
first_some_right none b h = h
first_some_right (some x) b h = refl

resolve-IsLate :
    (d : Delivery) (thread turn : Value)
    → is_empty (normalize_text thread) ≡ false
    → IsLate (normalize_text thread) d
    → is_some (resolve_superseded_run d thread turn) ≡ true
unfolding resolve_superseded_run
resolve-IsLate d thread turn h l =
    let t = normalize_text thread in
    let u = normalize_text turn in
    let of_thread = get t d.superseded_run_by_thread_id in
    rw (resolve_superseded_run, h)
      (either_way (λ (o : Option SupersededRun). is_some o ≡ true) (is_empty u) l
        (first_some_right (get (build_run_key t u) d.superseded_run_by_run_key) of_thread l))

-- The audits aside, nothing was called.
pub record Quiet (w w' : Wire) : Type 0 where
  pub calls : w'.calls ≡ w.calls
  pub delivered : w'.delivered ≡ w.delivered
  pub deferred : w'.deferred ≡ w.deferred
  pub notices : w'.notices ≡ w.notices

module _ (s : Services) (r : Reader) (t : Text) where
  -- The thread is still superseded, and nothing was called.
  record StillLate (w w' : World) : Type 0 where
    late : IsLate t w'.delivery
    quiet : Quiet w.wire w'.wire

  dispose-IsLate : (d : Delivery) (k : Text) → IsLate t d → IsLate t (dispose_run_state d k)
  unfolding dispose_run_state
  dispose-IsLate d k h = either_way (IsLate t) (is_empty (trim k)) h h

  record_late-StillLate :
      (old : SupersededRun) (e : Event) (w : World)
      → IsLate t w.delivery
      → StillLate w (record_late_old_turn_suppressed s r old e w)
  unfolding record_late_old_turn_suppressed
  record_late-StillLate old e w h =
      either_way (StillLate w) (any (λ n. n == old.number) w.delivery.audit_recorded)
        (record {
          late = h;
          quiet = record { calls = refl; delivered = refl; deferred = refl; notices = refl };
        })
        (record {
          late = h;
          quiet = record {
            calls = told.calls;
            delivered = told.delivered;
            deferred = told.deferred;
            notices = told.notices;
          };
        })
    where
      late : Run
      late =
          record (new_run (or_text (normalize_text e.thread_id) old.thread_id)
            (or_text (normalize_text e.turn_id) old.turn_id) false 0) {
              reply_target = old.reply_target;
            }

      told : Told w.wire (
          record_outbound_delivery s late late_payload
            (codes "runtime_causality")
            (codes "late_old_turn_suppressed")
            (or_text (type_text e.type) (codes "late_runtime_event"))
            none
            w.wire)
      told =
          record_outbound-Told s late late_payload (codes "runtime_causality")
            (codes "late_old_turn_suppressed")
            (or_text (type_text e.type) (codes "late_runtime_event")) none w.wire

  resolved-StillLate :
      (turn : Text) (e : Event) (w : World) (old : Option SupersededRun)
      → is_some old ≡ true
      → IsLate t w.delivery
      → StillLate w (handle_resolved s r t turn e w old).0
  unfolding handle_late
  resolved-StillLate turn e w none h l = absurd (cc h)
  resolved-StillLate turn e w (some old) h l =
      let k = record_late-StillLate old e w l in
      let d = (record_late_old_turn_suppressed s r old e w).delivery in
      record { late = dispose-IsLate d (build_run_key t turn) k.late; quiet = k.quiet }

  handle-StillLate :
      (e : Event) (w : World)
      → normalize_text e.thread_id ≡ t
      → is_empty t ≡ false
      → IsLate t w.delivery
      → StillLate w (handle_runtime_event s r e w).0
  unfolding handle_runtime_event
  handle-StillLate e w n h l =
      let turn = normalize_text e.turn_id in
      let same : normalize_text (str t) ≡ t =
        ap (λ x. normalize_text (str x)) (sym n) ∙ normalize_text-normalize_text e.thread_id ∙ n in
      rw (n, h)
        (resolved-StillLate turn e w (resolve_superseded_run w.delivery (str t) (str turn))
          (resolve-IsLate w.delivery (str t) (str turn) (ap is_empty same ∙ h)
            (subst (λ x. IsLate x w.delivery) (sym same) l))
          l)

  handle_all-StillLate :
      (es : List Event) (w : World)
      → All (λ e. normalize_text e.thread_id ≡ t) es
      → is_empty t ≡ false
      → IsLate t w.delivery
      → StillLate w (handle_all s r es w).0
  unfolding handle_all
  handle_all-StillLate [] w n h l = record {
    late = l;
    quiet = record { calls = refl; delivered = refl; deferred = refl; notices = refl };
  }
  handle_all-StillLate (e ∷ es) w n h l =
      let k = handle-StillLate e w n.0 h l in
      let k' = handle_all-StillLate es (handle_runtime_event s r e w).0 n.1 h k.late in
      record {
        late = k'.late;
        quiet = record {
          calls = k'.quiet.calls ∙ k.quiet.calls;
          delivered = k'.quiet.delivered ∙ k.quiet.delivered;
          deferred = k'.quiet.deferred ∙ k.quiet.deferred;
          notices = k'.quiet.notices ∙ k.quiet.notices;
        };
      }

mark-IsLate :
    (d : Delivery) (thread turn causal : Value) (generation : Option ℕ) (target : Option RawTarget)
    → is_empty (normalize_text thread) ≡ false
    → length d.superseded_run_by_thread_id ≤ max_entries
    → IsLate (normalize_text thread) (mark_run_superseded d thread turn causal generation target).0
unfolding mark_run_superseded
mark-IsLate d thread turn causal generation target h le =
    let t = normalize_text thread in
    let late = superseded_record d t (normalize_text turn) causal generation target in
    rw (mark_run_superseded, h) (get-trim_map t late d.superseded_run_by_thread_id le)

-- After a run of a thread is marked as superseded, with at most 1,024 threads marked before, no
-- sequence of events of that thread sends, defers or notifies anything.
pub handle_all-Quiet :
    (s : Services) (r : Reader) (d : Delivery) (thread turn causal : Value) (generation : Option ℕ)
    (target : Option RawTarget) (es : List Event) (w : Wire)
    → is_empty (normalize_text thread) ≡ false
    → length d.superseded_run_by_thread_id ≤ max_entries
    → All (λ e. normalize_text e.thread_id ≡ normalize_text thread) es
    → let marked = (mark_run_superseded d thread turn causal generation target).0 in
      Quiet w (handle_all s r es (record { delivery = marked; wire = w })).0.wire
handle_all-Quiet s r d thread turn causal generation target es w h le n =
    let marked = (mark_run_superseded d thread turn causal generation target).0 in
    (handle_all-StillLate s r (normalize_text thread) es (record { delivery = marked; wire = w }) n
      h (mark-IsLate d thread turn causal generation target h le)).quiet
