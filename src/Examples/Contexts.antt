-- ===== src/Examples/Contexts.antt =====
-- src/core/runtime-context-usage-store.js with a snapshot that has usage and one that has none.
use mossbridge.Prelude.{ℕ, ◌||◌, any, List, [], ◌∷◌, ◌≡◌, codes}
use mossbridge.Js.{str, other}
use mossbridge.ContextUsage.{Snapshot, empty_store, get_exact_context}
use mossbridge.ContextUsage.Usage.{is_known, reports, record_all, known-record_all}

abbrev snapshot : ℕ → Snapshot
snapshot tokens = record {
  thread_id = str (codes " t1 ");
  runtime_id = str (codes "codex");
  workspace_root = other;
  binding_key = other;
  current_tokens = tokens;
  context_window = 200;
  rest = [];
}

abbrev snapshots : List (Snapshot × ℕ)
snapshots = (snapshot 50, 1) ∷ (snapshot 0, 2) ∷ []

known-record_all_example :
    is_known (get_exact_context (record_all empty_store snapshots) (str (codes "t1"))) ≡ (
      is_known (get_exact_context empty_store (str (codes "t1")))
      || any (λ n. reports (str (codes "t1")) n.0) snapshots)
known-record_all_example = known-record_all empty_store snapshots (str (codes "t1"))
