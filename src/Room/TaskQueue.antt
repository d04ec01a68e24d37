-- ===== src/Room/TaskQueue.antt =====
-- room_task_queue.h and room_task_queue.cpp: the tasks of a room, one after the other, on the threads
-- of the executor.
pub mod Serial
use gd_server.Base.{Bool, List, Option, [], false, none, not, some, true, ◌++◌, ◌∷◌}

pub record TaskQueue {ℓ} (A : Type ℓ) : Type ℓ where
  pub tasks : List A
  pub drain_scheduled : Bool

-- `RoomTaskQueue{}`.
abbrev pub no_tasks {ℓ} : {A : Type ℓ} → TaskQueue A
no_tasks = record { tasks = []; drain_scheduled = false }

module _ {ℓ} {A : Type ℓ} where
  -- The queue afterwards, and whether the executor is given a drain.
  unfoldable pub post : TaskQueue A → A → TaskQueue A × Bool
  post q task =
      (record { tasks = q.tasks ++ task ∷ []; drain_scheduled = true }, not q.drain_scheduled)

  -- One round of the loop of `drain`, under the lock: the task to run, or the end of the loop. A
  -- task that throws does not end it.
  unfoldable pub drain_round : TaskQueue A → TaskQueue A × Option A
  drain_round q = elim q.tasks [
    | [] ↦ (record q { drain_scheduled = false }, none)
    | task ∷ tasks ↦ (record q { tasks = tasks }, some task)
  ]
