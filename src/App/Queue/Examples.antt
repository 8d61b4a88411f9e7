-- ===== src/App/Queue/Examples.antt =====
-- Tests of queue.go, and its theorems at concrete options and attempts.
use hooversion.App.Queue.Chains.{
  Queue, Worker, System, enqueue, take_task, Step, enqueued, took, empty_system, Reachable, start,
  next,
}
use hooversion.App.Queue.Limits.{new_release_task_queue_bounds}
use hooversion.App.Queue.Order.{Trace, begin, go_on, tasks_of, waiting, Trace-order}
use hooversion.App.Queue.Pending.{queued, running, Reachable-pending}
use hooversion.App.Queue.Workers.{roster, serial_of, Reachable-roster}
use hooversion.App.Queue.Retries.{IsJustified, run_with_retry-IsJustified}
use hooversion.App.Queue.{
  QueueOptions, QueueLimits, succeeded, Attempt, clamp_int, new_release_task_queue, retry_from,
  run_with_retry, queue_repository,
}
use hooversion.Text.Maps.{lookup, insert, HasDistinctKeys}
use hooversion.Common.{
  ◌++◌, List, [], ◌∷◌, ◌+◌, ℕ, zero, suc, ◌-◌, ◌^◌, ◌≤◌, ◌≡◌, refl, false, none, some, arith,
}
use hooversion.Text.{Text, text_eq, codes, to_lower, last_index}

-- MaxAttempts is -1
abbrev options : QueueOptions
options = record {
  max_concurrent = 9;
  max_attempts = 2 ^ 64 - 1;
  retry_delay_ms = 50000;
  max_pending = 5;
}

abbrev limits : QueueLimits
limits = record { attempts = 3; delay_ms = 10; pending = 5; concurrent = 5 }

-- the first attempt fails
abbrev observe : ℕ → Attempt
observe (suc zero) = record {
  error = some (codes "x");
  done_before = false;
  done_after = false;
  done_in_delay = false;
}
observe n = record { error = none; done_before = false; done_after = false; done_in_delay = false }

clamped :
    ((new_release_task_queue options).attempts ≡ 1)
    × ((new_release_task_queue options).delay_ms ≡ 30000)
    × ((new_release_task_queue options).concurrent ≡ 5)
unfolding new_release_task_queue clamp_int
clamped = (refl, refl, refl)

retried : run_with_retry limits observe ≡ succeeded 2
unfolding run_with_retry retry_from
retried = refl

repositories : queue_repository (λ c. c) (codes "Org/App:main") ≡ codes "org/app"
unfolding queue_repository last_index to_lower
repositories = refl

new_release_task_queue_bounds_example :
    (1 ≤ (new_release_task_queue options).attempts)
    × ((new_release_task_queue options).attempts ≤ 3)
    × ((new_release_task_queue options).delay_ms ≤ 30000)
    × (1 ≤ (new_release_task_queue options).concurrent)
    × ((new_release_task_queue options).concurrent ≤ (new_release_task_queue options).pending)
new_release_task_queue_bounds_example = new_release_task_queue_bounds options

run_with_retry-IsJustified_example : IsJustified limits observe (run_with_retry limits observe)
run_with_retry-IsJustified_example = run_with_retry-IsJustified limits observe (omega arith)

-- Two tasks of one key are accepted, and the worker takes the first.
abbrev key : Text
key = codes "org/app:main"

abbrev two_waiting : System
two_waiting = (enqueue key 2 (enqueue key 1 (empty_system 5)).1).1

abbrev worker : Worker
worker = record { key = key; serial = 0; current = none }

abbrev queue_with : List ℕ → Queue
queue_with tasks = record {
  chains = (key, record { serial = 0; tasks = tasks }) ∷ [];
  next_serial = 1;
  pending = 2;
  max_pending = 5;
  is_cancelled = false;
  last_failure = none;
}

abbrev busy_system : System
busy_system = record {
  queue = queue_with (2 ∷ []);
  workers = record worker { current = some 1 } ∷ [];
}

two_waiting-Reachable : Reachable 5 two_waiting
two_waiting-Reachable =
    next _ _ (next _ _ start (enqueued key 1 (empty_system 5)))
      (enqueued key 2 (enqueue key 1 (empty_system 5)).1)

taken : Step two_waiting busy_system
unfolding enqueue lookup insert text_eq take_task
taken = took (queue_with (1 ∷ 2 ∷ [])) (queue_with (2 ∷ [])) [] [] worker 1 refl refl

busy_system-Reachable : Reachable 5 busy_system
busy_system-Reachable = next two_waiting busy_system two_waiting-Reachable taken

Reachable-pending_example :
    (busy_system.queue.pending ≡ queued busy_system.queue.chains + running busy_system.workers)
    × (busy_system.queue.pending ≤ 5)
Reachable-pending_example = Reachable-pending 5 busy_system busy_system-Reachable

Reachable-roster_example :
    HasDistinctKeys (roster busy_system.workers)
    × ((k : Text)
        → lookup k (roster busy_system.workers) ≡ serial_of (lookup k busy_system.queue.chains))
Reachable-roster_example = Reachable-roster 5 busy_system busy_system-Reachable

busy_system-Trace : Trace 5 busy_system ((key, 1) ∷ (key, 2) ∷ []) ((key, 1) ∷ [])
unfolding enqueue lookup insert text_eq take_task
busy_system-Trace =
    go_on two_waiting busy_system _ _
      (took (queue_with (1 ∷ 2 ∷ [])) (queue_with (2 ∷ [])) [] [] worker 1 refl refl)
      (go_on _ _ _ _ (enqueued key 2 (enqueue key 1 (empty_system 5)).1)
        (go_on _ _ _ _ (enqueued key 1 (empty_system 5)) begin))

Trace-order_example :
    tasks_of key ((key, 1) ∷ (key, 2) ∷ [])
    ≡ tasks_of key ((key, 1) ∷ []) ++ waiting key busy_system
Trace-order_example =
    Trace-order key 5 busy_system ((key, 1) ∷ (key, 2) ∷ []) ((key, 1) ∷ []) busy_system-Trace
