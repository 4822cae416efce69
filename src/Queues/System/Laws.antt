-- ===== src/Queues/System/Laws.antt =====
-- The file of the queue stands for a sorted list of messages, and each operation for what it does to
-- that list.
use mossbridge.Prelude.{
  ℕ, Text, trim, or_text, is_empty, codes, eq_text, List, [], ◌∷◌, ◌++◌, some, Bool, true, false,
  not, ◌||◌, keep, any, length, All, All-keep, All-append, ◌==◌, ==_iff, ◌≡◌, refl, sym, ap, ◌∙◌,
  arith, inl, inr, Bool-cases, Order, sort_by, IsSorted, sort_by-IsSorted, sort_by_fixed,
  filter-IsSorted,
}
use mossbridge.Js.{
  normalize_str, trim-normalize_text, Value, str, normalize_text, normalize_text-normalize_text,
}
use mossbridge.Queues.Shape.{
  normalize_all, normalize_all-map, part-keep, by_time-order, keep_same_length, All-sort_by,
  or_text-default, keep-not-none,
}
use mossbridge.Prelude.{subst}
use mossbridge.Queues.System.{
  saved_unless_empty, normalized, Message, RawMessage, normalize_system_message, saved,
  is_expired_system_message, le_message, save, read_messages, load, enqueue, drain_for_account,
  has_pending_for_account, File,
}

-- A message that is read back as it was written, at any time.
pub record IsNormal (m : Message) : Type 0 where
  pub read_back : (now : ℕ) → normalize_system_message now (saved m) ≡ some m

-- The condition under which a message is refused.
abbrev lacks_field : Message → Bool
lacks_field m =
    is_empty m.id
    || is_empty m.account_id
    || is_empty m.sender_id
    || is_empty m.workspace_root
    || is_empty m.text

default_text :
    (v : Value) (d : Text)
    → trim d ≡ d
    → or_text (normalize_text (str (or_text (normalize_text v) d))) d ≡ or_text (normalize_text v) d
default_text v d h =
    rw
      (
        normalize_str (or_text (normalize_text v) d),
        (or_text-default (normalize_text v) d (trim-normalize_text v) h).0,
      )
      (or_text-default (normalize_text v) d (trim-normalize_text v) h).1

normalized-saved :
    (now later : ℕ) (r : RawMessage)
    → normalized later (saved (normalized now r)) ≡ normalized now r
unfolding normalized saved
normalized-saved now later r = rw (
  normalize_text-normalize_text r.id,
  normalize_text-normalize_text r.account_id,
  normalize_text-normalize_text r.sender_id,
  normalize_text-normalize_text r.workspace_root,
  normalize_text-normalize_text r.text,
  normalize_text-normalize_text r.title,
  default_text r.kind (codes "generic") (unfold trim in refl),
  default_text r.priority (codes "normal") (unfold trim in refl),
)

-- A message that `normalizeSystemMessage` accepts is read back as it was when it has been saved, at
-- any later or earlier clock.
pub normalize-saved :
    (now later : ℕ) (r : RawMessage) (m : Message)
    → normalize_system_message now r ≡ some m
    → normalize_system_message later (saved m) ≡ some m
unfolding normalize_system_message
normalize-saved now later r m h = elim (Bool-cases (lacks_field (normalized now r))) [
  | inl b ↦ absurd (cc (rw b at h))
  | inr b ↦
      let e : normalized now r ≡ m = cc (rw b at h) in
      subst (λ (x : Message). normalize_system_message later (saved x) ≡ some x) e
        (rw (normalized-saved now later r, b))
]

abbrev pub is_alive : ℕ → Message → Bool
is_alive now m = not (is_expired_system_message now m)

All-read :
    (now : ℕ) (ms : List Message)
    → All IsNormal ms
    → All (λ m. normalize_system_message now (saved m) ≡ some m) ms
All-read now [] h = tt
All-read now (m ∷ ms) h = (h.0.read_back now, All-read now ms h.1)

-- No message is in the list.
abbrev pub is_none_left : List Message → Bool
is_none_left [] = true
is_none_left (_ ∷ _) = false

module _ (le_id : Text → Text → Bool) (o : Order le_id) where
  -- The file holds these messages, in the queue's order.
  pub record Represents (file : File) (ms : List Message) : Type 0 where
    pub written : file ≡ save le_id ms
    pub normal : All IsNormal ms
    pub sorted : IsSorted (le_message le_id) ms

  order : Order (le_message le_id)
  unfolding le_message
  order = by_time-order (λ m. m.created_at) (λ m. m.id) le_id o

  read_all :
      (now : ℕ) (file : File) (ms : List Message)
      → Represents file ms
      → normalize_all (normalize_system_message now) file ≡ ms
  read_all now file ms v =
      rw v.written
        (normalize_all-map (normalize_system_message now) saved ms (All-read now ms v.normal))

  read_messages_lem :
      (now : ℕ) (file : File) (ms : List Message)
      → Represents file ms
      → read_messages le_id now file ≡ keep (is_alive now) ms
  unfolding read_messages
  read_messages_lem now file ms v = rw (read_all now file ms v) (
      sort_by_fixed (le_message le_id) (keep (is_alive now) ms)
        (filter-IsSorted (le_message le_id) (is_alive now) ms v.sorted))

  alive-Represents :
      (now : ℕ) (file : File) (ms : List Message)
      → Represents file ms
      → Represents (save le_id (keep (is_alive now) ms)) (keep (is_alive now) ms)
  alive-Represents now file ms v = record {
    written = refl;
    normal = All-keep IsNormal (is_alive now) ms v.normal;
    sorted = filter-IsSorted (le_message le_id) (is_alive now) ms v.sorted;
  }

  -- `load` yields the messages that have not expired, and leaves a file that holds just these.
  pub load-Represents :
      (now : ℕ) (file : File) (ms : List Message)
      → Represents file ms
      → ((load le_id now file).1 ≡ keep (is_alive now) ms)
        × Represents (load le_id now file).0 (keep (is_alive now) ms)
  unfolding load
  load-Represents now file ms v =
      rw (read_messages_lem now file ms v, read_all now file ms v)
        (elim (Bool-cases (length (keep (is_alive now) ms) == length ms)) [
          | inl e ↦ rw e (
            refl,
            subst (Represents file)
                (sym (
                  keep_same_length (is_alive now) ms
                    ((==_iff (length (keep (is_alive now) ms)) (length ms)).0 e)))
                v,
          )
          | inr e ↦ rw e (refl, alive-Represents now file ms v)
        ])

  loaded :
      (now : ℕ) (file : File) (ms : List Message)
      → Represents file ms
      → load le_id now file ≡ ((load le_id now file).0, keep (is_alive now) ms)
  loaded now file ms v =
      ap (λ (x : List Message). ((load le_id now file).0, x)) (load-Represents now file ms v).0

  -- When the file stands for a sorted list of messages, and a message is accepted, `enqueue`
  -- returns it and the file then stands for the sorted list of it and the messages that had not
  -- expired. The comparison of ids is an order.
  pub enqueue-Represents :
      (now : ℕ) (file : File) (ms : List Message) (r : RawMessage) (m : Message)
      → Represents file ms
      → normalize_system_message now r ≡ some m
      → ((enqueue le_id now file r).1 ≡ some m)
        × Represents
            (enqueue le_id now file r).0
            (sort_by (le_message le_id) (keep (is_alive now) ms ++ m ∷ []))
  unfolding enqueue
  enqueue-Represents now file ms r m v h =
      rw (loaded now file ms v, h)
        (
          refl,
          record {
            written = refl;
            normal = All-sort_by IsNormal (le_message le_id) (keep (is_alive now) ms ++ m ∷ []) (
                All-append IsNormal (keep (is_alive now) ms) (m ∷ [])
                  (All-keep IsNormal (is_alive now) ms v.normal)
                  (record { read_back = λ later. normalize-saved now later r m h }, tt));
            sorted = sort_by-IsSorted (le_message le_id) order (keep (is_alive now) ms ++ m ∷ []);
          },
        )

  abbrev pub of_account : Value → Message → Bool
  of_account account m = eq_text m.account_id (normalize_text account)

  -- When the file stands for a sorted list of messages, `drainForAccount` hands over the account's
  -- messages that have not expired, in order, and the file then stands for the others that have not
  -- expired. The comparison of ids is an order.
  pub drain-Represents :
      (now : ℕ) (file : File) (ms : List Message) (account : Value)
      → Represents file ms
      → ((drain_for_account le_id now file account).1
          ≡ keep (of_account account) (keep (is_alive now) ms))
        × Represents
            (drain_for_account le_id now file account).0
            (keep (λ m. not (of_account account m)) (keep (is_alive now) ms))
  unfolding drain_for_account
  drain-Represents now file ms account v =
      rw (loaded now file ms v, part-keep (of_account account) (keep (is_alive now) ms))
        (refl, left (keep (of_account account) (keep (is_alive now) ms)) refl)
    where
      left :
          (d : List Message)
          → keep (of_account account) (keep (is_alive now) ms) ≡ d
          → Represents
              (saved_unless_empty le_id d
                (keep (λ m. not (of_account account m)) (keep (is_alive now) ms))
                (load le_id now file).0)
              (keep (λ m. not (of_account account m)) (keep (is_alive now) ms))
      left [] e =
          rw (keep-not-none (of_account account) (keep (is_alive now) ms) e)
            (load-Represents now file ms v).1
      left (x ∷ d) e = record {
        written = refl;
        normal =
            All-keep IsNormal (λ m. not (of_account account m)) (keep (is_alive now) ms)
              (All-keep IsNormal (is_alive now) ms v.normal);
        sorted =
            filter-IsSorted (le_message le_id) (λ m. not (of_account account m))
              (keep (is_alive now) ms)
              (filter-IsSorted (le_message le_id) (is_alive now) ms v.sorted);
      }

  -- When the file stands for a list of messages, a second drain of the account, at any later or
  -- earlier clock, hands over nothing. The comparison of ids is an order.
  pub drain_once :
      (now later : ℕ) (file : File) (ms : List Message) (account : Value)
      → Represents file ms
      → (drain_for_account le_id later (drain_for_account le_id now file account).0 account).1 ≡ []
  drain_once now later file ms account v =
      (drain-Represents later (drain_for_account le_id now file account).0
        (keep (λ m. not (of_account account m)) (keep (is_alive now) ms)) account
        (drain-Represents now file ms account v).1).0
      ∙ keep-keep_not_alive (keep (is_alive now) ms)
    where
      keep-keep_not_alive :
          (xs : List Message)
          → keep
              (of_account account)
              (keep (is_alive later) (keep (λ m. not (of_account account m)) xs))
            ≡ []
      keep-keep_not_alive xs =
          elim xs
            as (λ xs.
              keep (of_account account)
                (keep (is_alive later) (keep (λ m. not (of_account account m)) xs))
              ≡ []) [ [] ↦ refl | x ∷ (r → ih) ↦ ground (arith, ih) ]

  -- When the file stands for a list of messages, `hasPendingForAccount` says whether a drain at
  -- that clock would hand anything over. The comparison of ids is an order.
  pub has_pending-drain :
      (now : ℕ) (file : File) (ms : List Message) (account : Value)
      → Represents file ms
      → (has_pending_for_account le_id now file account).1
        ≡ not (is_none_left (drain_for_account le_id now file account).1)
  unfolding has_pending_for_account
  has_pending-drain now file ms account v =
      rw (loaded now file ms v, (drain-Represents now file ms account v).0)
        (any-keep (keep (is_alive now) ms))
    where
      any-keep :
          (xs : List Message)
          → any (of_account account) xs ≡ not (is_none_left (keep (of_account account) xs))
      any-keep xs =
          elim xs
            as (λ xs.
              any (of_account account) xs ≡ not (is_none_left (keep (of_account account) xs))) [
                | [] ↦ refl
                | x ∷ (r → ih) ↦ ground (arith, ih)
              ]
