-- ===== src/Concurrent/Work.antt =====
-- vynkor/concurrent.py: what the tasks and the queue may still cost the loop.
use vynkor_sdk_python.Prelude.{
  ℕ, suc, ◌+◌, ◌-◌, ◌*◌, ◌≤◌, ◌≡◌, refl, ◌⊎◌, inr, Bool, true, false, List, [], ◌∷◌, ◌++◌, length,
  take, drop, min, arith, length-append, length-take, length-drop,
}
use vynkor_sdk_python.Messages.{ActionRequest, Envelope}
use vynkor_sdk_python.Concurrent.System.{
  Phase, draining, stopped, System, room, park, put_all, drained,
}

-- The turns that a task with these envelopes left may still take, and those that they cost the loop.
abbrev pub task_work : List Envelope → ℕ
task_work envs = 2 * length envs + 1

abbrev pub blocked_work : List (List Envelope) → ℕ
blocked_work [] = 0
blocked_work (envs ∷ tasks) = task_work envs + blocked_work tasks

-- The end of a drain is a turn too.
abbrev pub phase_work : Phase → ℕ
phase_work (draining exits) = 1
phase_work _ = 0

-- A handler's task puts at most `most` envelopes.
module _ (most : ℕ) where
  abbrev pub running_work : List ActionRequest → ℕ
  running_work [] = 0
  running_work (req ∷ reqs) = suc (2 * most + 1) + running_work reqs

  -- A bound on the turns until the loop ends: for the tasks, the queue and the end itself.
  abbrev pub work : System → ℕ
  work s = running_work s.running + blocked_work s.blocked + length s.queue + phase_work s.phase

  pub running_work-append :
      (before after : List ActionRequest)
      → running_work (before ++ after) ≡ running_work before + running_work after
  running_work-append [] after = omega arith
  running_work-append (req ∷ before) after = omega (arith, running_work-append before after)

pub blocked_work-append :
    (before after : List (List Envelope))
    → blocked_work (before ++ after) ≡ blocked_work before + blocked_work after
blocked_work-append [] after = omega arith
blocked_work-append (envs ∷ before) after = omega (arith, blocked_work-append before after)

-- What is put, and what then waits, costs less than the task that puts it; less still if there was
-- room for some of it.
park-work :
    (envs taken rest : List Envelope) (r : ℕ) (tasks : List (List Envelope))
    → length taken ≡ min r (length envs)
    → length rest ≡ length envs - r
    → blocked_work (park rest tasks) + length taken + min 1 r ≤ blocked_work tasks + task_work envs
unfolding park
park-work envs taken [] r tasks t d = omega arith
park-work envs taken (e ∷ more) r tasks t d = omega arith

pub put_all-work :
    (envs : List Envelope) (s : System)
    → blocked_work (put_all envs s).blocked + length (put_all envs s).queue + min 1 (room s)
      ≤ blocked_work s.blocked + length s.queue + task_work envs
unfolding put_all
put_all-work envs s = omega (
  arith,
  length-append s.queue (take (room s) envs),
  park-work envs (take (room s) envs) (drop (room s) envs) (room s) s.blocked
      (length-take (room s) envs) (length-drop (room s) envs),
)

pub put_all-kept :
    (envs : List Envelope) (s : System)
    → ((put_all envs s).running ≡ s.running) × ((put_all envs s).phase ≡ s.phase)
unfolding put_all
put_all-kept envs s = (refl, refl)

-- The loop is in its last drain, or behind it.
abbrev pub IsLeaving : Phase → Type 0
IsLeaving phase = (phase ≡ draining true) ⊎ (phase ≡ stopped)

pub drained-work : (exits : Bool) → phase_work (drained exits) ≡ 0
drained-work true = refl
drained-work false = refl

abbrev pub exits_of : Phase → Bool
exits_of (draining exits) = exits
exits_of _ = true

pub drained-IsLeaving : (exits : Bool) → exits ≡ true → IsLeaving (drained exits)
drained-IsLeaving true e = inr refl
drained-IsLeaving false e = absurd (cc)
