-- ===== src/Queues/Screenshot/Laws.antt =====
-- What the queue of screenshot jobs keeps, and what it hands over.
use mossbridge.Prelude.{
  ℕ, List, [], ◌∷◌, ◌++◌, none, some, Bool, false, ◌||◌, not, Text, is_empty, keep, if◌then◌else◌,
  sort_by, ◌≡◌, refl, ap, ◌∙◌, subst, inl, inr, Bool-cases, Order,
}
use mossbridge.Js.{Value, normalize_text, normalize_text-normalize_text}
use mossbridge.Queues.Shape.{part-keep, keep-not-none, by_time-order}
use mossbridge.Queues.Stored.{Holds, load_sorted-Holds, keep-Holds, push-Holds}
use mossbridge.Queues.Screenshot.{
  RawJob, Job, normalized, normalize_timeline_screenshot_job, saved, le_job, load, enqueue,
  unless_empty, is_of, drain_for_account,
}

module _ (le_id : Text → Text → Bool) (o : Order le_id) where
  abbrev pub IsHeld : List RawJob → List Job → Type 0
  IsHeld = Holds normalize_timeline_screenshot_job saved (le_job le_id)

  job-saved :
      (now later : ℕ) (raw : RawJob)
      → normalized later (saved (normalized now raw)) ≡ normalized now raw
  unfolding normalized saved
  job-saved now later raw =
      rw
        (
          normalize_text-normalize_text raw.id,
          normalize_text-normalize_text raw.account_id,
          normalize_text-normalize_text raw.sender_id,
          normalize_text-normalize_text raw.output_file,
          normalize_text-normalize_text raw.selector,
          normalize_text-normalize_text raw.range,
          normalize_text-normalize_text raw.date,
          normalize_text-normalize_text raw.week,
          normalize_text-normalize_text raw.month,
          normalize_text-normalize_text raw.category,
          normalize_text-normalize_text raw.subcategory,
          normalize_text-normalize_text raw.locale,
        )
        refl

  order : Order (le_job le_id)
  unfolding le_job
  order = by_time-order (λ j. j.created_at) (λ j. j.id) le_id o

  lacks : Job → Bool
  lacks j = is_empty j.id || is_empty j.account_id || is_empty j.sender_id

  read_back :
      (now later : ℕ) (raw : RawJob) (j : Job)
      → normalize_timeline_screenshot_job now raw ≡ some j
      → normalize_timeline_screenshot_job later (saved j) ≡ some j
  unfolding normalize_timeline_screenshot_job lacks
  read_back now later raw j h = elim (Bool-cases (lacks (normalized now raw))) [
    | inl b ↦ absurd (cc (rw b at h))
    | inr b ↦
        let e : normalized now raw ≡ j = cc (rw b at h) in
        subst (λ (x : Job). normalize_timeline_screenshot_job later (saved x) ≡ some x) e
          (ap (λ (x : Job). if lacks x then none else some x) (job-saved now later raw)
            ∙ kept (normalized now raw) b)
  ]
    where
      kept : (x : Job) → lacks x ≡ false → (if lacks x then none else some x) ≡ some x
      kept x b = rw b refl

  -- When the file stands for a sorted list of jobs and a job is accepted, `enqueue` returns it, and
  -- the file then stands for the sorted list of it and the others.
  pub enqueue_job-Holds :
      (now : ℕ) (file : List RawJob) (jobs : List Job) (raw : RawJob) (j : Job)
      → IsHeld file jobs
      → normalize_timeline_screenshot_job now raw ≡ some j
      → ((enqueue le_id now file raw).1 ≡ some j)
        × IsHeld (enqueue le_id now file raw).0 (sort_by (le_job le_id) (jobs ++ j ∷ []))
  unfolding enqueue load
  enqueue_job-Holds now file jobs raw j v h =
      rw
        (
          load_sorted-Holds normalize_timeline_screenshot_job saved (le_job le_id) now file jobs v,
          h,
        )
        (
          refl,
          push-Holds normalize_timeline_screenshot_job saved (le_job le_id) order file jobs j v
              (λ later. read_back now later raw j h),
        )

  -- When the file stands for a sorted list of jobs, `drainForAccount` returns those of the account
  -- and the file then stands for the others.
  pub drain-Holds :
      (now : ℕ) (file : List RawJob) (jobs : List Job) (account : Value)
      → IsHeld file jobs
      → ((drain_for_account le_id now file account).1
          ≡ keep (is_of le_id (normalize_text account)) jobs)
        × IsHeld
            (drain_for_account le_id now file account).0
            (keep (λ j. not (is_of le_id (normalize_text account) j)) jobs)
  unfolding drain_for_account load
  drain-Holds now file jobs account v =
      rw
        (
          load_sorted-Holds normalize_timeline_screenshot_job saved (le_job le_id) now file jobs v,
          part-keep p jobs,
        )
        (refl, left (keep p jobs) refl)
    where
      p : Job → Bool
      p = is_of le_id (normalize_text account)

      left :
          (d : List Job)
          → keep p jobs ≡ d
          → IsHeld
              (unless_empty le_id d (keep (λ j. not (p j)) jobs) file)
              (keep (λ j. not (p j)) jobs)
      left [] e = rw (keep-not-none p jobs e) v
      left (x ∷ d) e =
          keep-Holds normalize_timeline_screenshot_job saved (le_job le_id) (λ j. not (p j)) file
            jobs v
