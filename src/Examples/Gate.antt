-- ===== src/Examples/Gate.antt =====
-- src/core/turn-gate-store.js at concrete scopes.
use mossbridge.Prelude.{codes, ◌≡◌, refl, true, trim, is_empty, eq_text, not, ◌&&◌}
use mossbridge.Js.{Value, str, normalize_text}
use mossbridge.TurnGate.{
  new, begin, attach_thread, release_thread, is_pending, scope_key, has, add, TurnGate,
}
use mossbridge.TurnGate.Lifecycle.{turn_cycle, scope_key-injective, names_same}

abbrev binding : Value
binding = str (codes " w:a:s ")

abbrev root : Value
root = str (codes "/srv")

abbrev thread : Value
thread = str (codes "t1")

begins : is_pending (begin new binding root).0 (str (codes "w:a:s")) root ≡ true
unfolding is_pending begin new scope_key normalize_text has add eq_text is_empty trim
begins = refl

abbrev other_binding : Value
other_binding = str (codes "w:b:s")

-- A gate in which another scope is pending.
abbrev other_pending : TurnGate
other_pending = (begin new other_binding root).0

turn_cycle_example :
    is_pending
      (release_thread
        (attach_thread
          (begin other_pending binding root).0
          (str (begin other_pending binding root).1)
          thread)
        thread)
      other_binding
      root
    ≡ (not (names_same binding root other_binding root)
        && is_pending other_pending other_binding root)
unfolding normalize_text trim is_empty scope_key
turn_cycle_example =
    turn_cycle other_pending binding root thread other_binding root refl refl refl refl

scope_key-injective_example :
    (normalize_text binding ≡ normalize_text (str (codes "w:a:s")))
    × (normalize_text root ≡ normalize_text root)
unfolding normalize_text trim is_empty scope_key
scope_key-injective_example =
    scope_key-injective binding root (str (codes "w:a:s")) root refl refl refl refl
