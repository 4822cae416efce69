-- ===== src/TurnGate.antt =====
-- src/core/turn-gate-store.js: which scopes (a binding key and a workspace root) have a turn under
-- way, and which runtime thread carries the turn of which scope.
pub mod Keys
pub mod Lifecycle
use mossbridge.Prelude.{
  Text, eq_text, is_empty, Dict, get, put, remove, codes, List, [], ◌∷◌, ◌++◌, Option, none, some,
  Bool, true, false, not, ◌||◌, if◌then◌else◌, any, keep,
}
use mossbridge.Js.{Value, normalize_text}

-- A `Set` of strings in the order of insertion.
abbrev pub TextSet : Type 0
TextSet = List Text

unfoldable pub has : Text → TextSet → Bool
has k s = any (λ x. eq_text x k) s

unfoldable pub add : Text → TextSet → TextSet
unfolding has
add k s = if has k s then s else s ++ k ∷ []

unfoldable pub delete : Text → TextSet → TextSet
delete k s = keep (λ x. not (eq_text x k)) s

pub record TurnGate : Type 0 where
  pub scope_by_thread : Dict Text
  pub pending_scopes : TextSet

unfoldable pub new : TurnGate
new = record { scope_by_thread = []; pending_scopes = [] }

unfoldable pub join_scope : Text → Text → Text
join_scope b w = if is_empty b || is_empty w then [] else b ++ (codes "::" ++ w)

unfoldable pub scope_key : Value → Value → Text
unfolding join_scope
scope_key binding_key workspace_root =
    join_scope (normalize_text binding_key) (normalize_text workspace_root)

unfoldable pub begin : TurnGate → Value → Value → TurnGate × Text
begin g binding_key workspace_root =
    let k = scope_key binding_key workspace_root in
    if is_empty k then (g, []) else (record g { pending_scopes = add k g.pending_scopes }, k)

unfoldable pub attach_thread : TurnGate → Value → Value → TurnGate
attach_thread g scope thread =
    let k = normalize_text scope in
    let t = normalize_text thread in
    if is_empty k || is_empty t then g else record g { scope_by_thread = put t k g.scope_by_thread }

unfoldable pub release_scope : TurnGate → Value → Value → TurnGate
release_scope g binding_key workspace_root =
    let k = scope_key binding_key workspace_root in
    if is_empty k then g else record g { pending_scopes = delete k g.pending_scopes }

-- What `releaseThread` does with the scope that it finds, if any.
drop_thread : TurnGate → Text → Option Text → TurnGate
drop_thread g t none = g
drop_thread g t (some k) = if is_empty k then g else record g {
  pending_scopes = delete k g.pending_scopes;
  scope_by_thread = remove t g.scope_by_thread;
}

unfoldable pub release_thread : TurnGate → Value → TurnGate
unfolding drop_thread
release_thread g thread =
    let t = normalize_text thread in
    if is_empty t then g else drop_thread g t (get t g.scope_by_thread)

unfoldable pub is_pending : TurnGate → Value → Value → Bool
is_pending g binding_key workspace_root =
    let k = scope_key binding_key workspace_root in
    if is_empty k then false else has k g.pending_scopes
