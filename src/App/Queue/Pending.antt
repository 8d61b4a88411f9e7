-- ===== src/App/Queue/Pending.antt =====
-- The bound on the accepted tasks of internal/app/queue.go: `pending` counts the tasks that wait or
-- run.
use hooversion.App.Queue.Chains.{
  Chain, Queue, Worker, System, enqueue, leave, run_task, take_from, take_task, finish_task, cancel,
  with_current, Step, enqueued, cancelled, took, left, finished, empty_system, Reachable, start,
  next,
}
use hooversion.Common.{
  ℕ, suc, ◌+◌, ◌≤◌, ◌≡◌, ◌⊎◌, refl, sym, ap, ◌∙◌, subst, ◌||◌, List, [], ◌∷◌, ◌++◌, Option, none,
  some, arith, leb, ◌==◌, length, length-append, Bool-cases, Option-cases, inl, inr,
}
use hooversion.Text.Laws.{text_eq_iff}
use hooversion.Text.Maps.{
  TextMap, lookup, insert, delete, HasDistinctKeys, insert-HasDistinctKeys, delete-HasDistinctKeys,
}
use hooversion.Text.{Text}

-- the tasks that wait
abbrev pub queued : TextMap Chain → ℕ
queued [] = 0
queued ((k, c) ∷ chains) = length c.tasks + queued chains

abbrev pub size : Option Chain → ℕ
size none = 0
size (some c) = length c.tasks

queued-insert :
    (k : Text) (c : Chain) (m : TextMap Chain)
    → queued (insert k c m) + size (lookup k m) ≡ queued m + length c.tasks
unfolding insert lookup
queued-insert k c [] = omega arith
queued-insert k c ((j, d) ∷ m) = ground (arith, queued-insert k c m)

queued-delete :
    (k : Text) (m : TextMap Chain)
    → HasDistinctKeys m
    → queued (delete k m) + size (lookup k m) ≡ queued m
unfolding delete lookup
queued-delete k [] h = refl
queued-delete k ((j, d) ∷ m) (f, h) = ground (arith, queued-delete k m h, text_eq_iff j k, f)

abbrev busy : Option ℕ → ℕ
busy none = 0
busy (some task) = 1

-- the tasks that run
abbrev pub running : List Worker → ℕ
running [] = 0
running (w ∷ workers) = busy w.current + running workers

running-append : (xs ys : List Worker) → running (xs ++ ys) ≡ running xs + running ys
running-append [] ys = omega arith
running-append (w ∷ xs) ys = omega (arith, running-append xs ys)

pub List-cases {ℓ} :
    {A : Type ℓ} (xs : List A) → (xs ≡ []) ⊎ ((x : A) × (ys : List A) × (xs ≡ x ∷ ys))
List-cases [] = inl refl
List-cases (x ∷ xs) = inr (x, xs, refl)

record IsCounted (limit : ℕ) (s : System) : Type 0 where
  distinct : HasDistinctKeys s.queue.chains
  counted : s.queue.pending ≡ queued s.queue.chains + running s.workers
  bounded : s.queue.pending ≤ limit
  limited : s.queue.max_pending ≡ limit

enqueue-IsCounted :
    (limit : ℕ) (key : Text) (task : ℕ) (s : System)
    → IsCounted limit s
    → IsCounted limit (enqueue key task s).1
unfolding enqueue
enqueue-IsCounted limit key task s h =
    elim (Bool-cases (s.queue.is_cancelled || leb s.queue.max_pending s.queue.pending)) [
      | inl e ↦ rw (enqueue, e) h
      | inr e ↦
          let room : suc s.queue.pending ≤ limit = ground (arith, e, h.limited) in
          elim (Option-cases (lookup key s.queue.chains)) [
            | inl f ↦
                rw (enqueue, e, f)
                  (record {
                    distinct = insert-HasDistinctKeys key _ s.queue.chains h.distinct;
                    counted =
                        let size_none : size (lookup key s.queue.chains) ≡ 0 = ap size f in
                        omega (
                          arith,
                          h.counted,
                          size_none,
                          queued-insert key
                              (record { serial = s.queue.next_serial; tasks = task ∷ [] })
                              s.queue.chains,
                          running-append s.workers (
                              record { key = key; serial = s.queue.next_serial; current = none }
                              ∷ []),
                        );
                    bounded = omega (arith, room);
                    limited = h.limited;
                  })
            | inr (chain, f) ↦
                rw (enqueue, e, f)
                  (record {
                    distinct = insert-HasDistinctKeys key _ s.queue.chains h.distinct;
                    counted =
                        let size_some : size (lookup key s.queue.chains) ≡ length chain.tasks =
                          ap size f in
                        omega (
                          arith,
                          h.counted,
                          size_some,
                          length-append chain.tasks (task ∷ []),
                          queued-insert key (record chain { tasks = chain.tasks ++ task ∷ [] })
                              s.queue.chains,
                        );
                    bounded = omega (arith, room);
                    limited = h.limited;
                  })
          ]
    ]

-- What a worker that gets a task finds: its chain, and the task at its front.
pub take_task-run :
    (key : Text) (serial : ℕ) (q q' : Queue) (task : ℕ)
    → take_task key serial q ≡ run_task task q'
    → (chain : Chain) × (tasks : List ℕ) × (lookup key q.chains ≡ some chain)
      × (chain.tasks ≡ task ∷ tasks)
      × (q' ≡ record q { chains = insert key (record chain { tasks = tasks }) q.chains })
unfolding take_task take_from
take_task-run key serial q q' task h = elim (Option-cases (lookup key q.chains)) [
  | inl e ↦ absurd (leave-ne-run (rw (take_task, e) at h))
  | inr (chain, e) ↦ elim (Bool-cases (chain.serial == serial)) [
    | inr d ↦ absurd (leave-ne-run (rw (take_task, e, d) at h))
    | inl d ↦ elim (List-cases chain.tasks) [
      | inl f ↦ absurd (leave-ne-run (rw (take_task, e, d, take_from, f) at h))
      | inr (x, tasks, f) ↦
          let (same, rest) = run_task-injective (rw (take_task, e, d, take_from, f) at h) in
          (chain, tasks, e, f ∙ ap (λ y. y ∷ tasks) same, sym rest)
    ]
  ]
]
  where
    leave-ne-run : {a b : Queue} {t : ℕ} → ¬ (leave a ≡ run_task t b)
    leave-ne-run e = cc

    run_task-injective : {a b : Queue} {t u : ℕ} → run_task t a ≡ run_task u b → (t ≡ u) × (a ≡ b)
    run_task-injective e = (cc, cc)

-- What a worker that ends leaves: the queue as it is, or without its chain, which was empty.
pub take_task-leave :
    (key : Text) (serial : ℕ) (q q' : Queue)
    → take_task key serial q ≡ leave q'
    → (q' ≡ q)
      ⊎ ((size (lookup key q.chains) ≡ 0) × (q' ≡ record q { chains = delete key q.chains }))
unfolding take_task take_from
take_task-leave key serial q q' h = elim (Option-cases (lookup key q.chains)) [
  | inl e ↦ inl (sym (leave-injective (rw (take_task, e) at h)))
  | inr (chain, e) ↦ elim (Bool-cases (chain.serial == serial)) [
    | inr d ↦ inl (sym (leave-injective (rw (take_task, e, d) at h)))
    | inl d ↦ elim (List-cases chain.tasks) [
      | inl f ↦
          inr (
            ap size e ∙ ap length f,
            sym (leave-injective (rw (take_task, e, d, take_from, f) at h)),
          )
      | inr (x, tasks, f) ↦ absurd (run-ne-leave (rw (take_task, e, d, take_from, f) at h))
    ]
  ]
]
  where
    run-ne-leave : {a b : Queue} {t : ℕ} → ¬ (run_task t a ≡ leave b)
    run-ne-leave e = cc

    leave-injective : {a b : Queue} → leave a ≡ leave b → a ≡ b
    leave-injective e = cc

Step-IsCounted : (limit : ℕ) {s t : System} → Step s t → IsCounted limit s → IsCounted limit t
unfolding cancel finish_task
Step-IsCounted limit (enqueued key task s) h = enqueue-IsCounted limit key task s h
Step-IsCounted limit (cancelled s) h = record {
  distinct = h.distinct;
  counted = h.counted;
  bounded = h.bounded;
  limited = h.limited;
}
Step-IsCounted limit (finished q before after w task error e) h = record {
  distinct = h.distinct;
  counted =
      let one : busy w.current ≡ 1 = ap busy e in
      omega (
        arith,
        h.counted,
        one,
        running-append before (w ∷ after),
        running-append before (with_current w none ∷ after),
      );
  bounded = omega (arith, h.bounded);
  limited = h.limited;
}
Step-IsCounted limit (took q q' before after w task e g) h =
    let (chain, tasks, f, front, same) = take_task-run w.key w.serial q q' task g in
    let rest : Chain = record chain { tasks = tasks } in
    let size_some : size (lookup w.key q.chains) ≡ suc (length tasks) =
      ap size f ∙ ap length front in
    let none_ran : busy w.current ≡ 0 = ap busy e in
    subst
      (λ x.
        IsCounted limit
          (record { queue = x; workers = before ++ with_current w (some task) ∷ after }))
      (sym same)
      (record {
        distinct = insert-HasDistinctKeys w.key rest q.chains h.distinct;
        counted = omega (
          arith,
          h.counted,
          size_some,
          none_ran,
          queued-insert w.key rest q.chains,
          running-append before (w ∷ after),
          running-append before (with_current w (some task) ∷ after),
        );
        bounded = h.bounded;
        limited = h.limited;
      })
Step-IsCounted limit (left q q' before after w e g) h =
    let none_ran : busy w.current ≡ 0 = ap busy e in
    let fewer : running (before ++ after) ≡ running (before ++ w ∷ after) =
      omega (arith, none_ran, running-append before (w ∷ after), running-append before after) in
    elim (take_task-leave w.key w.serial q q' g) [
      | inl same ↦
          subst (λ x. IsCounted limit (record { queue = x; workers = before ++ after })) (sym same)
            (record {
              distinct = h.distinct;
              counted = omega (arith, h.counted, fewer);
              bounded = h.bounded;
              limited = h.limited;
            })
      | inr (empty, same) ↦
          subst (λ x. IsCounted limit (record { queue = x; workers = before ++ after })) (sym same)
            (record {
              distinct = delete-HasDistinctKeys w.key q.chains h.distinct;
              counted =
                  omega (arith, h.counted, fewer, empty, queued-delete w.key q.chains h.distinct);
              bounded = h.bounded;
              limited = h.limited;
            })
    ]

start-IsCounted : (limit : ℕ) → IsCounted limit (empty_system limit)
start-IsCounted limit = record {
  distinct = tt;
  counted = refl;
  bounded = omega arith;
  limited = refl;
}

Reachable-IsCounted : (limit : ℕ) {s : System} → Reachable limit s → IsCounted limit s
Reachable-IsCounted limit start = start-IsCounted limit
Reachable-IsCounted limit (next s t r step) =
    Step-IsCounted limit step (Reachable-IsCounted limit r)

-- Whatever steps the callers and the workers of a queue have taken, in any order, `pending` is the
-- number of tasks that wait or run, and it is at most the limit of the queue.
pub Reachable-pending :
    (limit : ℕ) (s : System)
    → Reachable limit s
    → (s.queue.pending ≡ queued s.queue.chains + running s.workers) × (s.queue.pending ≤ limit)
Reachable-pending limit s r = let h = Reachable-IsCounted limit r in (h.counted, h.bounded)
