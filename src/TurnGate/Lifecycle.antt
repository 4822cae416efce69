-- ===== src/TurnGate/Lifecycle.antt =====
-- What a turn's begin, attachment and release do to every scope.
use mossbridge.Prelude.{
  Text, ◌≡◌, refl, Bool, true, false, not, ◌&&◌, ◌||◌, arith, eq_text, is_empty, codes, Bool-cases,
  inl, inr, ◌∷◌, eq_text_iff, ap,
}
use mossbridge.Prelude.{[], ◌∷◌, trim, trim-between, sym, ◌∙◌, get-put, get-remove, eq_text_refl}
use mossbridge.Js.{normalize_text-normalize_text, Value, str, normalize_text}
use mossbridge.TurnGate.{
  TurnGate, begin, attach_thread, release_scope, release_thread, is_pending, scope_key, join_scope,
}
use mossbridge.TurnGate.Keys.{has-add, has-delete, ColonFree, join_parts}

-- Whether two calls name the same scope, by keys that are not empty.
abbrev pub same_scope : Value → Value → Value → Value → Bool
same_scope b w b' w' = not (is_empty (scope_key b w)) && eq_text (scope_key b w) (scope_key b' w')

empty_key : (k j : Text) → is_empty j ≡ true → is_empty k ≡ false → eq_text k j ≡ false
unfolding is_empty eq_text
empty_key [] j h e = cc
empty_key (c ∷ k) [] h e = refl
empty_key (c ∷ k) (d ∷ j) h e = cc

-- After `begin` a scope is pending if it is the one that began, or was pending before.
pub is_pending-begin :
    (g : TurnGate) (b w b' w' : Value)
    → is_pending (begin g b w).0 b' w' ≡ (same_scope b w b' w' || is_pending g b' w')
unfolding begin is_pending
is_pending-begin g b w b' w' = ground (
  arith,
  has-add (scope_key b w) (scope_key b' w') g.pending_scopes,
  empty_key (scope_key b w) (scope_key b' w'),
)

-- After `releaseScope` a scope is pending if it was before and is another one.
pub is_pending-release_scope :
    (g : TurnGate) (b w b' w' : Value)
    → is_pending (release_scope g b w) b' w' ≡ (not (same_scope b w b' w') && is_pending g b' w')
unfolding release_scope is_pending
is_pending-release_scope g b w b' w' =
    ground (arith, has-delete (scope_key b w) (scope_key b' w') g.pending_scopes)

trim-join_scope : (a w : Text) → trim a ≡ a → trim w ≡ w → trim (join_scope a w) ≡ join_scope a w
unfolding join_scope
trim-join_scope a w ha hw = elim (Bool-cases (is_empty a || is_empty w)) [
  | inl e ↦ rw e (unfold trim in refl)
  | inr e ↦ rw e (trim-between a (codes "::") w ha hw (ground arith) (ground arith))
]

-- What `begin` returns is what `attachThread` records, trimmed or not.
attached_key : (b w : Value) → normalize_text (str (scope_key b w)) ≡ scope_key b w
unfolding scope_key
attached_key b w =
    normalize_str (join_scope (normalize_text b) (normalize_text w))
    ∙ trim-join_scope (normalize_text b) (normalize_text w) (trimmed b) (trimmed w)
  where
    normalize_str : (t : Text) → normalize_text (str t) ≡ trim t
    normalize_str t = unfold normalize_text in refl

    trimmed : (v : Value) → trim (normalize_text v) ≡ normalize_text v
    trimmed v = sym (normalize_str (normalize_text v)) ∙ normalize_text-normalize_text v

-- Releasing a thread right after the turn of a scope was attached to it ends that scope's turn and
-- leaves every other scope as it was.
pub is_pending-release_thread :
    (g : TurnGate) (b w t b' w' : Value)
    → is_empty (normalize_text t) ≡ false
    → is_empty (scope_key b w) ≡ false
    → is_pending (release_thread (attach_thread g (str (scope_key b w)) t) t) b' w'
      ≡ (not (same_scope b w b' w') && is_pending g b' w')
unfolding attach_thread release_thread is_pending
is_pending-release_thread g b w t b' w' ht hk =
    rw
      (
        attached_key b w,
        hk,
        ht,
        get-put (normalize_text t) (normalize_text t) (scope_key b w) g.scope_by_thread,
        eq_text_refl (normalize_text t),
        hk,
      )
      (ground (arith, has-delete (scope_key b w) (scope_key b' w') g.pending_scopes))

-- The effect of a whole turn, by the keys of the scopes.
turn_cycle_by_key :
    (g : TurnGate) (b w t b' w' : Value)
    → is_empty (normalize_text t) ≡ false
    → is_empty (scope_key b w) ≡ false
    → is_pending (release_thread (attach_thread (begin g b w).0 (str (begin g b w).1) t) t) b' w'
      ≡ (not (same_scope b w b' w') && is_pending g b' w')
turn_cycle_by_key g b w t b' w' ht hk =
    rw
      (
        begun,
        is_pending-release_thread (begin g b w).0 b w t b' w' ht hk,
        is_pending-begin g b w b' w',
      )
      (ground arith)
  where
    begun : (begin g b w).1 ≡ scope_key b w
    begun = unfold begin in rw hk

join_scope-injective :
    (b w c v : Text)
    → ColonFree w
    → ColonFree v
    → is_empty (join_scope b w) ≡ false
    → join_scope b w ≡ join_scope c v
    → (b ≡ c) × (w ≡ v)
unfolding join_scope is_empty
join_scope-injective b w c v hw hv ne e = elim (Bool-cases (is_empty b || is_empty w)) [
  | inl p ↦ cc (rw p at ne)
  | inr p ↦ elim (Bool-cases (is_empty c || is_empty v)) [
    | inl q ↦ cc (rw (e, q) at ne)
    | inr q ↦ join_parts b c w v hw hv (rw (p, q) at e)
  ]
]

-- Two scopes whose keys are equal and not empty have the same binding key and the same root, if the
-- roots are free of colons.
pub scope_key-injective :
    (b w b' w' : Value)
    → ColonFree (normalize_text w)
    → ColonFree (normalize_text w')
    → is_empty (scope_key b w) ≡ false
    → scope_key b w ≡ scope_key b' w'
    → (normalize_text b ≡ normalize_text b') × (normalize_text w ≡ normalize_text w')
unfolding scope_key
scope_key-injective b w b' w' =
    join_scope-injective (normalize_text b) (normalize_text w) (normalize_text b')
      (normalize_text w')

-- Whether two calls name the same binding key and the same root, with blanks around them left out.
abbrev pub names_same : Value → Value → Value → Value → Bool
names_same b w b' w' =
    eq_text (normalize_text b) (normalize_text b') && eq_text (normalize_text w) (normalize_text w')

same_scope-names_same :
    (b w b' w' : Value)
    → ColonFree (normalize_text w)
    → ColonFree (normalize_text w')
    → is_empty (scope_key b w) ≡ false
    → same_scope b w b' w' ≡ names_same b w b' w'
same_scope-names_same b w b' w' c c' h = elim (Bool-cases (names_same b w b' w')) [
  | inl e ↦ rw (h, one_key e) (sym e)
  | inr e ↦ elim (Bool-cases (eq_text (scope_key b w) (scope_key b' w'))) [
    | inl k ↦ absurd (
        cc (
          e,
          both (
              scope_key-injective b w b' w' c c' h
                ((eq_text_iff (scope_key b w) (scope_key b' w')).0 k)),
        ))
    | inr k ↦ rw (h, k) (sym e)
  ]
]
  where
    both :
        (normalize_text b ≡ normalize_text b') × (normalize_text w ≡ normalize_text w')
        → names_same b w b' w' ≡ true
    both p = ground (
      arith,
      (eq_text_iff (normalize_text b) (normalize_text b')).1 p.0,
      (eq_text_iff (normalize_text w) (normalize_text w')).1 p.1,
    )

    one_key : names_same b w b' w' ≡ true → eq_text (scope_key b w) (scope_key b' w') ≡ true
    one_key e = (eq_text_iff (scope_key b w) (scope_key b' w')).1 (
        unfold scope_key in
        cc (
          (eq_text_iff (normalize_text b) (normalize_text b')).0 (ground (arith, e)),
          (eq_text_iff (normalize_text w) (normalize_text w')).0 (ground (arith, e)),
        ))

-- After a whole turn, begun, attached to a named thread and released through the thread, the turn's
-- scope is not pending, and a scope with another binding key or another root is pending if it was
-- before. The turn's scope has a key, and the roots are free of colons.
pub turn_cycle :
    (g : TurnGate) (b w t b' w' : Value)
    → ColonFree (normalize_text w)
    → ColonFree (normalize_text w')
    → is_empty (normalize_text t) ≡ false
    → is_empty (scope_key b w) ≡ false
    → is_pending (release_thread (attach_thread (begin g b w).0 (str (begin g b w).1) t) t) b' w'
      ≡ (not (names_same b w b' w') && is_pending g b' w')
turn_cycle g b w t b' w' c c' ht hk =
    turn_cycle_by_key g b w t b' w' ht hk
    ∙ ap (λ x. not x && is_pending g b' w') (same_scope-names_same b w b' w' c c' hk)

-- A second release of the same thread, with nothing attached in between, changes nothing.
pub release_thread-release_thread :
    (g : TurnGate) (t : Value) → release_thread (release_thread g t) t ≡ release_thread g t
unfolding release_thread
release_thread-release_thread g t = ground (
  arith,
  get-remove (normalize_text t) (normalize_text t) g.scope_by_thread,
  eq_text_refl (normalize_text t),
)
