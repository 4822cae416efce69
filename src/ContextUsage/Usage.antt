-- ===== src/ContextUsage/Usage.antt =====
-- When the usage of a thread is known, and what is read back from the file.
use mossbridge.Js.{Value, normalize_text}
use mossbridge.ContextUsage.{
  Snapshot, Context, Store, has_positive_context_usage, recorded, entry, stays, placed, Request,
  load, requested, record_auto_compact, record_context, get_exact_context, List, Dict, Bool, ◌∷◌,
  false, not, some, is_empty,
}
use mossbridge.Prelude.{
  last_n_short, length-last_n, last_n-snoc, last_n, any, length, ◌≤◌, ◌++◌, ◌≡◌, refl, ap, ◌∙◌, inl,
  inr, arith, Bool-cases, Bool, true, false, not, ◌&&◌, ◌||◌, Option, none, some, List, [], ◌∷◌,
  if◌then◌else◌, is_empty, Text, eq_text, eq_text_iff, Dict, get, get-put, ℕ, Text, Option, ◌≡◌,
  true, ◌||◌, get,
}

-- A context that is there and says how much is used.
abbrev pub is_known : Option Context → Bool
is_known none = false
is_known (some c) = has_positive_context_usage c.current_tokens c.context_window

-- A snapshot of the thread that says how much is used.
abbrev pub reports : Value → Snapshot → Bool
reports thread n =
    not (is_empty (normalize_text n.thread_id))
    && eq_text (normalize_text n.thread_id) (normalize_text thread)
    && has_positive_context_usage n.current_tokens n.context_window

-- The snapshots recorded one after the other, each at its time.
abbrev pub record_all : Store → List (Snapshot × ℕ) → Store
record_all s [] = s
record_all s (n ∷ ns) = record_all (record_context s n.0 n.1).0 ns

-- What is found under an id after a context is placed.
pub entry-placed :
    (id t : Text) (c : Context) (contexts : Dict Context)
    → entry t (placed id c contexts)
      ≡ (if not (is_empty id) && eq_text id t then some c else entry t contexts)
unfolding is_empty get
entry-placed [] t c contexts = refl
entry-placed (x ∷ id) [] c contexts = unfold eq_text in refl
entry-placed (x ∷ id) (y ∷ t) c contexts = get-put (x ∷ id) (y ∷ t) c contexts

-- Where an entry stays, it is known, and the snapshot reports nothing.
stays-known : (o : Option Context) (n : Snapshot) → stays o n ≡ true → is_known o ≡ true
stays-known none n h = ground (arith, h)
stays-known (some c) n h = ground (arith, h)

-- Where an entry gives way, the snapshot reports usage if the entry knew it.
gives_way-known :
    (o : Option Context) (n : Snapshot)
    → stays o n ≡ false
    → has_positive_context_usage n.current_tokens n.context_window
      ≡ (is_known o || has_positive_context_usage n.current_tokens n.context_window)
gives_way-known none n h = refl
gives_way-known (some c) n h = ground (arith, h)

unreported :
    (o : Option Context) (n : Snapshot)
    → stays o n ≡ true
    → has_positive_context_usage n.current_tokens n.context_window ≡ false
unreported none n h = ground (arith, h)
unreported (some c) n h = ground (arith, h)

-- What is known under an id after a snapshot's context is placed over an entry that gives way.
known-placed :
    (id t : Text) (n : Snapshot) (now : ℕ) (contexts : Dict Context)
    → stays (entry id contexts) n ≡ false
    → is_known (entry t (placed id (recorded n now) contexts)) ≡ (
        is_known (entry t contexts)
        || not (is_empty id)
          && eq_text id t
          && has_positive_context_usage n.current_tokens n.context_window)
unfolding recorded
known-placed id t n now contexts h =
    ap is_known (entry-placed id t (recorded n now) contexts) ∙ elim (Bool-cases (eq_text id t)) [
      | inl e ↦ ground (
        arith,
        e,
        gives_way-known (entry id contexts) n h,
        ap (λ x. is_known (entry x contexts)) ((eq_text_iff id t).0 e),
      )
      | inr e ↦ rw e (ground arith)
    ]

-- Whether the usage of a thread is known after a snapshot is recorded.
pub known-record_context :
    (s : Store) (n : Snapshot) (now : ℕ) (thread : Value)
    → is_known (get_exact_context (record_context s n now).0 thread)
      ≡ (is_known (get_exact_context s thread) || reports thread n)
unfolding record_context get_exact_context recorded
known-record_context s n now thread =
    elim (Bool-cases
      (is_empty (normalize_text n.thread_id) && is_empty (normalize_text n.runtime_id))) [
        | inl e ↦ rw e (ground (arith, e))
        | inr e ↦
            rw e
              (elim (Bool-cases
                (stays (entry (normalize_text n.thread_id) s.contexts_by_thread_id) n)) [
                  | inl k ↦ rw k (
                      ground (
                        arith,
                        unreported (entry (normalize_text n.thread_id) s.contexts_by_thread_id) n k,
                      ))
                  | inr k ↦ rw k (
                      known-placed (normalize_text n.thread_id) (normalize_text thread) n now
                        s.contexts_by_thread_id k)
                ])
      ]

-- The usage of a thread is known after a sequence of snapshots exactly when it was known before, or
-- one of them reports it: no later snapshot of the thread, of its runtime or of another makes it
-- unknown.
pub known-record_all :
    (s : Store) (ns : List (Snapshot × ℕ)) (thread : Value)
    → is_known (get_exact_context (record_all s ns) thread)
      ≡ (is_known (get_exact_context s thread) || any (λ n. reports thread n.0) ns)
known-record_all s [] thread = ground arith
known-record_all s (n ∷ ns) thread = ground (
  arith,
  known-record_all (record_context s n.0 n.1).0 ns thread,
  known-record_context s n.0 n.1 thread,
)

-- A file that holds at most fifty events is read as it was saved.
pub load-saved : (s : Store) → length s.auto_compact_events ≤ 50 → load (some s) ≡ s
unfolding load
load-saved s h =
    ap (λ es. record s { auto_compact_events = es }) (last_n_short 50 s.auto_compact_events h)

-- What is saved after an event is recorded is read back whole.
pub load-record_auto_compact :
    (s : Store) (e : Request) (now : ℕ)
    → load (some (record_auto_compact s e now).0) ≡ (record_auto_compact s e now).0
unfolding record_auto_compact
load-record_auto_compact s e now =
    load-saved (record_auto_compact s e now).0
      (length-last_n 50 (s.auto_compact_events ++ requested e now ∷ []))

-- The event that is recorded is the last of those that are kept.
pub record_auto_compact-last :
    (s : Store) (e : Request) (now : ℕ)
    → (record_auto_compact s e now).0.auto_compact_events
      ≡ last_n 49 s.auto_compact_events ++ requested e now ∷ []
unfolding record_auto_compact
record_auto_compact-last s e now = last_n-snoc 49 s.auto_compact_events (requested e now)
