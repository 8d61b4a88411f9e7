-- ===== src/App/Queue/Chains.antt =====
-- internal/app/queue.go: admission to a ReleaseTaskQueue and the chains of tasks. A section under
-- the mutex is one step, and a worker is the goroutine that drains one chain. A chain has the
-- number of its creation in place of the address that `current != state` compares.
use hooversion.Common.{
  ℕ, suc, ◌+◌, ◌-◌, ◌≡◌, Bool, true, false, not, ◌||◌, List, [], ◌∷◌, ◌++◌, Option, none, some, leb,
  ◌==◌, if◌then◌else◌,
}
use hooversion.Text.Maps.{TextMap, lookup, insert, delete}
use hooversion.Text.{Text}

-- keyQueue, less `running`, which nothing reads; a task is a number
pub record Chain : Type 0 where
  pub serial : ℕ
  pub tasks : List ℕ

-- the fields of ReleaseTaskQueue that the steps read or write
pub record Queue : Type 0 where
  pub chains : TextMap Chain
  pub next_serial : ℕ
  pub pending : ℕ
  pub max_pending : ℕ
  pub is_cancelled : Bool
  pub last_failure : Option Text

-- A goroutine in `drain`, with the task that it runs.
pub record Worker : Type 0 where
  pub key : Text
  pub serial : ℕ
  pub current : Option ℕ

pub record System : Type 0 where
  pub queue : Queue
  pub workers : List Worker

abbrev admit : Text → Chain → Queue → Queue
admit key chain q = record q { chains = insert key chain q.chains; pending = q.pending + 1 }

-- Enqueue
unfoldable pub enqueue : Text → ℕ → System → Bool × System
enqueue key task s =
    let q = s.queue in
    if q.is_cancelled || leb q.max_pending q.pending
    then (false, s)
    else elim (lookup key q.chains) [
      | some chain ↦ (
        true,
        record s { queue = admit key (record chain { tasks = chain.tasks ++ task ∷ [] }) q },
      )
      | none ↦ (
        true,
        record {
          queue = record (admit key (record { serial = q.next_serial; tasks = task ∷ [] }) q) {
            next_serial = suc q.next_serial;
          };
          workers = s.workers ++ record { key = key; serial = q.next_serial; current = none } ∷ [];
        },
      )
    ]

-- What the first section of the loop of drain does: it ends the worker or gives it a task.
pub data Turn : Type 0 where
  leave : Queue → Turn
  run_task : ℕ → Queue → Turn

unfoldable pub take_from : Text → Chain → Queue → Turn
take_from key chain q = elim chain.tasks [
  | [] ↦ leave (record q { chains = delete key q.chains })
  | task ∷ tasks ↦
      run_task task (record q { chains = insert key (record chain { tasks = tasks }) q.chains })
]

-- the first section of drain
unfoldable pub take_task : Text → ℕ → Queue → Turn
unfolding take_from
take_task key serial q = elim (lookup key q.chains) [
  | none ↦ leave q
  | some chain ↦ if not (chain.serial == serial) then leave q else take_from key chain q
]

abbrev or_failure : Option Text → Option Text → Option Text
or_failure none last = last
or_failure (some e) last = some e

-- the second section of drain
unfoldable pub finish_task : Option Text → Queue → Queue
finish_task error q = record q {
  pending = q.pending - 1;
  last_failure = or_failure error q.last_failure;
}

-- Cancel
unfoldable pub cancel : Queue → Queue
cancel q = record q { is_cancelled = true }

abbrev pub with_current : Worker → Option ℕ → Worker
with_current w current = record w { current = current }

-- The steps of the callers and of the workers, in any order.
pub data Step : System → System → Type 0 where
  enqueued : (key : Text) (task : ℕ) (s : System) → Step s (enqueue key task s).1
  cancelled : (s : System) → Step s (record s { queue = cancel s.queue })
  took :
      (q q' : Queue) (before after : List Worker) (w : Worker) (task : ℕ)
      → w.current ≡ none
      → take_task w.key w.serial q ≡ run_task task q'
      → Step
          (record { queue = q; workers = before ++ w ∷ after })
          (record { queue = q'; workers = before ++ with_current w (some task) ∷ after })
  left :
      (q q' : Queue) (before after : List Worker) (w : Worker)
      → w.current ≡ none
      → take_task w.key w.serial q ≡ leave q'
      → Step
          (record { queue = q; workers = before ++ w ∷ after })
          (record { queue = q'; workers = before ++ after })
  finished :
      (q : Queue) (before after : List Worker) (w : Worker) (task : ℕ) (error : Option Text)
      → w.current ≡ some task
      → Step
          (record { queue = q; workers = before ++ w ∷ after })
          (record { queue = finish_task error q; workers = before ++ with_current w none ∷ after })

-- An idle queue.
abbrev pub empty_system : ℕ → System
empty_system max_pending = record {
  queue = record {
    chains = [];
    next_serial = 0;
    pending = 0;
    max_pending = max_pending;
    is_cancelled = false;
    last_failure = none;
  };
  workers = [];
}

pub data Reachable (max_pending : ℕ) : System → Type 0 where
  start : Reachable max_pending (empty_system max_pending)
  next : (s t : System) → Reachable max_pending s → Step s t → Reachable max_pending t
