-- ===== src/Queues/Reminder/Laws.antt =====
-- What the reminder queue hands over, and what it keeps.
use mossbridge.Prelude.{length, if◌then◌else◌}
use mossbridge.Prelude.{
  ℕ, Text, List, [], ◌∷◌, ◌++◌, Option, none, some, Bool, true, false, not, ◌≡◌, refl, ap, ◌∙◌,
  arith, inl, inr, keep, All, is_empty, leb, IsSorted, sort_by, ◌≤◌, trim, Order, or_text, ◌<◌, any,
  eq_text, Bool-cases, ltb, subst, keep_none,
}
use mossbridge.Js.{
  Value, str, normalize_text, normalize_str, normalize_text-normalize_text, trim-normalize_text,
}
use mossbridge.Queues.Shape.{part-keep, keep-not-none, All-keep_if, or_text_kept, length-keep_taken}
use mossbridge.Queues.Stored.{Holds, load_sorted-Holds, keep-Holds, push-Holds}
use mossbridge.Queues.Reminder.{
  RawReminder, Reminder, saved, le_reminder, normalized, is_invalid, with_due, normalize_reminder,
  load, pushed, enqueue, unless_empty, list_due, list_pending, cancel,
}

order : Order le_reminder
unfolding le_reminder
order = record { total = λ a b h. ground arith; trans = λ a b c h k. ground arith }

-- What is assumed of `toISOString`: the text is not empty and has no space around it.
pub record IsIso (iso : ℕ → Text) : Type 0 where
  pub named : (now : ℕ) → is_empty (iso now) ≡ false
  pub trimmed : (now : ℕ) → trim (iso now) ≡ iso now

module _ (iso : ℕ → Text) (iso_lem : IsIso iso) where
  abbrev pub IsHeld : List RawReminder → List Reminder → Type 0
  IsHeld = Holds (normalize_reminder iso) saved le_reminder

  loaded :
      (now : ℕ) (file : List RawReminder) (rs : List Reminder)
      → IsHeld file rs
      → load iso now file ≡ rs
  unfolding load
  loaded now file rs v = load_sorted-Holds (normalize_reminder iso) saved le_reminder now file rs v

  -- A saved reminder is read back with the default time of its first reading.
  created_again :
      (now later : ℕ) (v : Value)
      → or_text (normalize_text (str (or_text (normalize_text v) (iso now)))) (iso later)
        ≡ or_text (normalize_text v) (iso now)
  created_again now later v = rw (normalize_str (or_text (normalize_text v) (iso now))) (
      or_text_kept (normalize_text v) (iso now) (iso later) (trim-normalize_text v)
        (iso_lem.trimmed now) (iso_lem.named now))

  normalized-saved :
      (now later : ℕ) (raw : RawReminder) (due : ℕ)
      → normalized iso later (saved (normalized iso now raw due)) due ≡ normalized iso now raw due
  unfolding normalized saved
  normalized-saved now later raw due = rw (
    normalize_text-normalize_text raw.id,
    normalize_text-normalize_text raw.account_id,
    normalize_text-normalize_text raw.sender_id,
    normalize_text-normalize_text raw.context_token,
    normalize_text-normalize_text raw.text,
    created_again now later raw.created_at,
  )

  read_back :
      (later : ℕ) (r : Reminder)
      → normalize_reminder iso later (saved r) ≡ (
          if is_invalid iso (normalized iso later (saved r) r.due_at_ms)
          then none
          else some (normalized iso later (saved r) r.due_at_ms))
  unfolding normalize_reminder with_due saved
  read_back later r = refl

  read_back_valid :
      (later : ℕ) (r : Reminder)
      → normalized iso later (saved r) r.due_at_ms ≡ r
      → is_invalid iso r ≡ false
      → normalize_reminder iso later (saved r) ≡ some r
  read_back_valid later r k b =
      read_back later r ∙ ap (λ x. if is_invalid iso x then none else some x) k ∙ rw b refl

  with_due-saved :
      (now later : ℕ) (raw : RawReminder) (o : Option ℕ) (r : Reminder)
      → with_due iso now raw o ≡ some r
      → normalize_reminder iso later (saved r) ≡ some r
  unfolding with_due normalize_reminder
  with_due-saved now later raw none r h = absurd (cc h)
  with_due-saved now later raw (some due) r h =
      elim (Bool-cases (is_invalid iso (normalized iso now raw due))) [
        | inl b ↦ absurd (cc (rw b at h))
        | inr b ↦
            let e : normalized iso now raw due ≡ r = cc (rw b at h) in
            subst (λ (x : Reminder). normalize_reminder iso later (saved x) ≡ some x) e
              (read_back_valid later (normalized iso now raw due)
                (unfold normalized in normalized-saved now later raw due) b)
      ]

  pub normalize_reminder-saved :
      (now later : ℕ) (raw : RawReminder) (r : Reminder)
      → normalize_reminder iso now raw ≡ some r
      → normalize_reminder iso later (saved r) ≡ some r
  unfolding normalize_reminder
  normalize_reminder-saved now later raw r h = with_due-saved now later raw raw.due_at_ms r h

  -- When the file stands for a sorted list of reminders, and a reminder is accepted, `enqueue`
  -- returns it and the file then stands for the sorted list of it and the others. Times as
  -- `toISOString` writes them are trimmed and not empty.
  pub enqueue-Holds :
      (now : ℕ) (file : List RawReminder) (rs : List Reminder) (raw : RawReminder) (r : Reminder)
      → IsHeld file rs
      → normalize_reminder iso now raw ≡ some r
      → ((enqueue iso now file raw).1 ≡ some r)
        × IsHeld (enqueue iso now file raw).0 (sort_by le_reminder (rs ++ r ∷ []))
  unfolding enqueue pushed
  enqueue-Holds now file rs raw r v h =
      rw (loaded now file rs v, h)
        (
          refl,
          push-Holds (normalize_reminder iso) saved le_reminder order file rs r v
              (λ later. normalize_reminder-saved now later raw r h),
        )

  abbrev is_due : ℕ → Reminder → Bool
  is_due now_ms r = leb r.due_at_ms now_ms

  none_due :
      (now_ms : ℕ) (r : Reminder) (rs : List Reminder)
      → is_due now_ms r ≡ false
      → All (λ x. le_reminder r x ≡ true) rs
      → keep (is_due now_ms) rs ≡ []
  unfolding le_reminder
  none_due now_ms r [] h k = refl
  none_due now_ms r (x ∷ rs) h k = ground (arith, none_due now_ms r rs h k.1, k.0)

  due_first :
      (now_ms : ℕ) (rs : List Reminder)
      → IsSorted le_reminder rs
      → keep (is_due now_ms) rs ++ keep (λ r. not (is_due now_ms r)) rs ≡ rs
  unfolding le_reminder
  due_first now_ms [] h = refl
  due_first now_ms (r ∷ rs) h = elim (Bool-cases (is_due now_ms r)) [
    | inl e ↦ rw (e, due_first now_ms rs h.1) refl
    | inr e ↦
        let n = none_due now_ms r rs e h.0 in rw (e, n, keep-not-none (is_due now_ms) rs n) refl
  ]

  due-Holds :
      (now now_ms : ℕ) (file : List RawReminder) (rs : List Reminder)
      → IsHeld file rs
      → ((list_due iso now file now_ms).1 ≡ keep (is_due now_ms) rs)
        × IsHeld (list_due iso now file now_ms).0 (keep (λ r. not (is_due now_ms r)) rs)
  unfolding list_due
  due-Holds now now_ms file rs v =
      rw (loaded now file rs v, part-keep (is_due now_ms) rs)
        (refl, left (keep (is_due now_ms) rs) refl)
    where
      left :
          (d : List Reminder)
          → keep (is_due now_ms) rs ≡ d
          → IsHeld
              (unless_empty iso d (keep (λ r. not (is_due now_ms r)) rs) file)
              (keep (λ r. not (is_due now_ms r)) rs)
      left [] e = rw (keep-not-none (is_due now_ms) rs e) v
      left (x ∷ d) e =
          keep-Holds (normalize_reminder iso) saved le_reminder (λ r. not (is_due now_ms r)) file rs
            v

  -- When the file stands for a sorted list of reminders, `listDue` splits it: the reminders that it
  -- returns, followed by those that are pending afterwards, are the ones that were pending before;
  -- the former are due at the given time, the latter are not. Times as `toISOString` writes them
  -- are trimmed and not empty.
  pub list_due-list_pending :
      (now later now_ms : ℕ) (file : List RawReminder) (rs : List Reminder)
      → IsHeld file rs
      → ((list_due iso now file now_ms).1 ++ list_pending iso later (list_due iso now file now_ms).0
          ≡ list_pending iso now file)
        × All (λ r. r.due_at_ms ≤ now_ms) (list_due iso now file now_ms).1
        × All (λ r. now_ms < r.due_at_ms) (list_pending iso later (list_due iso now file now_ms).0)
  unfolding list_pending
  list_due-list_pending now later now_ms file rs v =
      let w = due-Holds now now_ms file rs v in
      rw (w.0, loaded later _ _ w.1, loaded now file rs v)
        (
          due_first now_ms rs v.sorted,
          All-keep_if (λ r. r.due_at_ms ≤ now_ms) (is_due now_ms) rs (λ x h. ground arith),
          All-keep_if (λ r. now_ms < r.due_at_ms) (λ r. not (is_due now_ms r)) rs
              (λ x h. ground arith),
        )

  -- When the file stands for a sorted list of reminders, `cancel` with an id that is not blank says
  -- whether a reminder had that id, and the file then stands for the reminders without it. Times as
  -- `toISOString` writes them are trimmed and not empty.
  pub cancel-Holds :
      (now : ℕ) (file : List RawReminder) (rs : List Reminder) (id : Value)
      → IsHeld file rs
      → is_empty (normalize_text id) ≡ false
      → ((cancel iso now file id).1 ≡ any (λ r. eq_text r.id (normalize_text id)) rs)
        × IsHeld (cancel iso now file id).0 (keep (λ r. not (eq_text r.id (normalize_text id))) rs)
  unfolding cancel
  cancel-Holds now file rs id v h = elim (Bool-cases (any p rs)) [
    | inl e ↦
        let s : ltb (length (keep (λ r. not (p r)) rs)) (length rs) ≡ true =
          ground (arith, length-keep_taken p rs e) in
        rw (h, loaded now file rs v, e, s)
          (refl, keep-Holds (normalize_reminder iso) saved le_reminder (λ r. not (p r)) file rs v)
    | inr e ↦
        let n = keep-not-none p rs (keep_none p rs e) in
        let s : ltb (length rs) (length rs) ≡ false = ground arith in
        rw (h, loaded now file rs v, e, n, s) (refl, v)
  ]
    where
      p : Reminder → Bool
      p r = eq_text r.id (normalize_text id)
