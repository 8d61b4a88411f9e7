-- ===== src/App/Queue/Order.antt =====
-- The order of the tasks of one key in internal/app/queue.go.
use hooversion.App.Queue.Chains.{
  Chain, Queue, Worker, System, enqueue, leave, run_task, take_task, finish_task, cancel, Step,
  enqueued, cancelled, took, left, finished, empty_system,
}
use hooversion.App.Queue.Pending.{take_task-run, take_task-leave}
use hooversion.Common.{
  ℕ, ◌≡◌, refl, sym, ap, ◌∙◌, ◌||◌, List, [], ◌∷◌, ◌++◌, append-nil, append_assoc, Option, none,
  some, arith, leb, if◌then◌else◌, Bool-cases, Option-cases, inl, inr,
}
use hooversion.Text.Laws.{text_eq_iff}
use hooversion.Text.Maps.{lookup, lookup-insert, lookup-delete}
use hooversion.Text.{Text, text_eq}

-- The tasks that a step accepts and that it starts, with their keys.
abbrev pub accepted_by : {s t : System} → Step s t → List (Text × ℕ)
accepted_by (enqueued key task s) = if (enqueue key task s).0 then (key, task) ∷ [] else []
accepted_by (cancelled s) = []
accepted_by (took q q' before after w task e g) = []
accepted_by (left q q' before after w e g) = []
accepted_by (finished q before after w task error e) = []

abbrev pub started_by : {s t : System} → Step s t → List (Text × ℕ)
started_by (enqueued key task s) = []
started_by (cancelled s) = []
started_by (took q q' before after w task e g) = (w.key, task) ∷ []
started_by (left q q' before after w e g) = []
started_by (finished q before after w task error e) = []

-- Steps from an idle queue, with the tasks accepted and the tasks started, in their order.
pub data Trace (limit : ℕ) : System → List (Text × ℕ) → List (Text × ℕ) → Type 0 where
  begin : Trace limit (empty_system limit) [] []
  go_on :
      (s t : System) (accepted started : List (Text × ℕ)) (step : Step s t)
      → Trace limit s accepted started
      → Trace limit t (accepted ++ accepted_by step) (started ++ started_by step)

module _ (k : Text) where
  -- the tasks of one key
  abbrev pub tasks_of : List (Text × ℕ) → List ℕ
  tasks_of [] = []
  tasks_of ((key, task) ∷ log) = if text_eq key k then task ∷ tasks_of log else tasks_of log

  tasks_of-append : (xs ys : List (Text × ℕ)) → tasks_of (xs ++ ys) ≡ tasks_of xs ++ tasks_of ys
  tasks_of-append [] ys = refl
  tasks_of-append ((key, task) ∷ xs) ys = ground (arith, tasks_of-append xs ys)

  abbrev chain_tasks : Option Chain → List ℕ
  chain_tasks none = []
  chain_tasks (some c) = c.tasks

  -- the tasks of the key that wait
  abbrev pub waiting : System → List ℕ
  waiting s = chain_tasks (lookup k s.queue.chains)

  waiting-enqueue :
      (key : Text) (task : ℕ) (s : System)
      → waiting (enqueue key task s).1
        ≡ waiting s ++ tasks_of (if (enqueue key task s).0 then (key, task) ∷ [] else [])
  unfolding enqueue
  waiting-enqueue key task s =
      elim (Bool-cases (s.queue.is_cancelled || leb s.queue.max_pending s.queue.pending)) [
        | inl e ↦ rw (enqueue, e) (sym (append-nil _))
        | inr e ↦ elim (Option-cases (lookup key s.queue.chains)) [
          | inl f ↦
              rw (enqueue, e, f)
                (ground (
                  arith,
                  text_eq_iff key k,
                  f,
                  append-nil (waiting s),
                  lookup-insert key k (record { serial = s.queue.next_serial; tasks = task ∷ [] })
                      s.queue.chains,
                ))
          | inr (chain, f) ↦
              rw (enqueue, e, f)
                (ground (
                  arith,
                  text_eq_iff key k,
                  f,
                  append-nil (waiting s),
                  lookup-insert key k (record chain { tasks = chain.tasks ++ task ∷ [] })
                      s.queue.chains,
                ))
        ]
      ]

  took-front :
      (q q' : Queue) (w : Worker) (task : ℕ)
      → take_task w.key w.serial q ≡ run_task task q'
      → tasks_of ((w.key, task) ∷ []) ++ chain_tasks (lookup k q'.chains)
        ≡ chain_tasks (lookup k q.chains)
  took-front q q' w task g =
      let (chain, tasks, f, front, same) = take_task-run w.key w.serial q q' task g in
      let now =
        ap (λ (x : Queue). lookup k x.chains) same
        ∙ lookup-insert w.key k (record chain { tasks = tasks }) q.chains in
      ground (arith, now, text_eq_iff w.key k, f, front)

  left-nothing :
      (q q' : Queue) (w : Worker)
      → take_task w.key w.serial q ≡ leave q'
      → chain_tasks (lookup k q'.chains) ≡ chain_tasks (lookup k q.chains)
  left-nothing q q' w g = elim (take_task-leave w.key w.serial q q' g) [
    | inl same ↦ ap (λ (x : Queue). chain_tasks (lookup k x.chains)) same
    | inr (empty, same) ↦
        let now = ap (λ (x : Queue). lookup k x.chains) same ∙ lookup-delete w.key k q.chains in
        ground (arith, now, text_eq_iff w.key k, empty)
  ]

  Step-waiting :
      {s t : System} (step : Step s t)
      → tasks_of (started_by step) ++ waiting t ≡ waiting s ++ tasks_of (accepted_by step)
  unfolding cancel finish_task
  Step-waiting (enqueued key task s) = waiting-enqueue key task s
  Step-waiting (cancelled s) = sym (append-nil _)
  Step-waiting (finished q before after w task error e) = sym (append-nil _)
  Step-waiting (took q q' before after w task e g) = took-front q q' w task g ∙ sym (append-nil _)
  Step-waiting (left q q' before after w e g) = left-nothing q q' w g ∙ sym (append-nil _)

  -- Whatever steps a queue has taken, the tasks of a key that were started are, in their order, the
  -- first of those that were accepted, and the rest are the ones that wait in its chain, in their order.
  pub Trace-order :
      (limit : ℕ) (s : System) (accepted started : List (Text × ℕ))
      → Trace limit s accepted started
      → tasks_of accepted ≡ tasks_of started ++ waiting s
  Trace-order limit s accepted started begin = unfold lookup in refl
  Trace-order limit now accepted started (go_on s t before_a before_s step trace) =
      let old = Trace-order limit s before_a before_s trace in
      tasks_of-append before_a (accepted_by step)
      ∙ ap (λ l. l ++ tasks_of (accepted_by step)) old
      ∙ append_assoc (tasks_of before_s) (waiting s) (tasks_of (accepted_by step))
      ∙ ap (λ l. tasks_of before_s ++ l) (sym (Step-waiting step))
      ∙ sym (append_assoc (tasks_of before_s) (tasks_of (started_by step)) (waiting t))
      ∙ ap (λ l. l ++ waiting t) (sym (tasks_of-append before_s (started_by step)))
