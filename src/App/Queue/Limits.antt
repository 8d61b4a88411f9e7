-- ===== src/App/Queue/Limits.antt =====
-- The limits that NewReleaseTaskQueue of internal/app/queue.go sets.
use hooversion.App.Queue.{QueueOptions, clamp_int, new_release_task_queue}
use hooversion.Common.{◌≤◌, arith}

-- Whatever the options are, a task has one to three attempts with at most 30 seconds between them,
-- and the queue runs at least one task, and no more at a time than it admits.
pub new_release_task_queue_bounds :
    (options : QueueOptions)
    → (1 ≤ (new_release_task_queue options).attempts)
      × ((new_release_task_queue options).attempts ≤ 3)
      × ((new_release_task_queue options).delay_ms ≤ 30000)
      × (1 ≤ (new_release_task_queue options).concurrent)
      × ((new_release_task_queue options).concurrent ≤ (new_release_task_queue options).pending)
unfolding new_release_task_queue clamp_int
new_release_task_queue_bounds options =
    (ground arith, ground arith, ground arith, ground arith, ground arith)
