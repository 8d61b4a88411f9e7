-- ===== src/App/Queue/Workers.antt =====
-- The workers of internal/app/queue.go: each key with a chain has one, and it drains that chain.
use hooversion.App.Queue.Chains.{
  Chain, Queue, Worker, System, enqueue, leave, run_task, take_from, take_task, finish_task, cancel,
  with_current, Step, enqueued, cancelled, took, left, finished, empty_system, Reachable, start,
  next,
}
use hooversion.App.Queue.Pending.{take_task-run, List-cases}
use hooversion.Common.{
  ℕ, ◌≡◌, refl, sym, ap, ◌∙◌, subst, true, ◌||◌, List, [], ◌∷◌, ◌++◌, Option, none, some, arith,
  leb, ◌==◌, ==_refl, none-ne-some, some-eq, if◌then◌else◌, Bool-cases, Option-cases, inl, inr,
}
use hooversion.Text.Laws.{text_eq_iff, text_eq_refl}
use hooversion.Text.Maps.{
  TextMap, lookup, insert, delete, lookup-insert, lookup-delete, HasDistinctKeys,
}
use hooversion.Text.{Text, text_eq}

-- the serials of the workers, under their keys
abbrev pub roster : List Worker → TextMap ℕ
roster [] = []
roster (w ∷ workers) = (w.key, w.serial) ∷ roster workers

-- the serial of a chain
abbrev pub serial_of : Option Chain → Option ℕ
serial_of none = none
serial_of (some c) = some c.serial

roster-append : (xs ys : List Worker) → roster (xs ++ ys) ≡ roster xs ++ roster ys
roster-append [] ys = refl
roster-append (w ∷ xs) ys = ap (◌∷◌ (w.key, w.serial)) (roster-append xs ys)

roster-with_current :
    (xs ys : List Worker) (w : Worker) (c : Option ℕ)
    → roster (xs ++ with_current w c ∷ ys) ≡ roster (xs ++ w ∷ ys)
roster-with_current [] ys w c = refl
roster-with_current (x ∷ xs) ys w c = ap (◌∷◌ (x.key, x.serial)) (roster-with_current xs ys w c)

module _ (k : Text) (n : ℕ) where
  lookup-append_last :
      (m : TextMap ℕ) (j : Text)
      → lookup k m ≡ none
      → lookup j (m ++ (k, n) ∷ []) ≡ (if text_eq k j then some n else lookup j m)
  unfolding lookup
  lookup-append_last [] j h = refl
  lookup-append_last ((i, v) ∷ m) j h =
      ground (arith, lookup-append_last m j, text_eq_iff i k, text_eq_iff i j, text_eq_iff k j)

  append_last-HasDistinctKeys :
      (m : TextMap ℕ) → lookup k m ≡ none → HasDistinctKeys m → HasDistinctKeys (m ++ (k, n) ∷ [])
  unfolding lookup
  append_last-HasDistinctKeys [] h d = (refl, tt)
  append_last-HasDistinctKeys ((i, v) ∷ m) h (f, d) =
      let rest : lookup k m ≡ none = ground arith in
      (
        ground (arith, lookup-append_last m i rest, text_eq_iff k i, text_eq_iff i k),
        append_last-HasDistinctKeys m rest d,
      )

  lookup-here :
      (xs ys : TextMap ℕ)
      → HasDistinctKeys (xs ++ (k, n) ∷ ys)
      → lookup k (xs ++ (k, n) ∷ ys) ≡ some n
  unfolding lookup
  lookup-here [] ys d = ground (arith, text_eq_refl k)
  lookup-here ((i, v) ∷ xs) ys (f, d) = ground (arith, lookup-here xs ys d, f, text_eq_iff i k)

  -- Removing the entry of a key.
  lookup-remove :
      (xs ys : TextMap ℕ) (j : Text)
      → HasDistinctKeys (xs ++ (k, n) ∷ ys)
      → lookup j (xs ++ ys) ≡ (if text_eq k j then none else lookup j (xs ++ (k, n) ∷ ys))
  unfolding lookup
  lookup-remove [] ys j (f, d) = ground (arith, text_eq_iff k j, f)
  lookup-remove ((i, v) ∷ xs) ys j (f, d) = ground (
    arith,
    lookup-remove xs ys j d,
    text_eq_iff i j,
    text_eq_iff i k,
    text_eq_iff k j,
    f,
    lookup-here xs ys d,
  )

  remove-HasDistinctKeys :
      (xs ys : TextMap ℕ) → HasDistinctKeys (xs ++ (k, n) ∷ ys) → HasDistinctKeys (xs ++ ys)
  remove-HasDistinctKeys [] ys (f, d) = d
  remove-HasDistinctKeys ((i, v) ∷ xs) ys (f, d) =
      (ground (arith, lookup-remove xs ys i d, f), remove-HasDistinctKeys xs ys d)

-- The workers have different keys, and their serials are those of the chains under their keys.
record IsManned (s : System) : Type 0 where
  distinct : HasDistinctKeys (roster s.workers)
  matched : (k : Text) → lookup k (roster s.workers) ≡ serial_of (lookup k s.queue.chains)

-- an insertion of a chain with the serial that the key has
same_serial :
    (k j : Text) (old new : Chain) (m : TextMap Chain)
    → lookup k m ≡ some old
    → new.serial ≡ old.serial
    → serial_of (lookup j (insert k new m)) ≡ serial_of (lookup j m)
same_serial k j old new m e s = elim (Bool-cases (text_eq k j)) [
  | inl same ↦
      let there : lookup j m ≡ some old =
        subst (λ x. lookup x m ≡ some old) ((text_eq_iff k j).0 same) e in
      let now : lookup j (insert k new m) ≡ some new = lookup-insert k j new m ∙ rw same refl in
      ap serial_of now ∙ ap some s ∙ sym (ap serial_of there)
  | inr differs ↦
      let kept : lookup j (insert k new m) ≡ lookup j m =
        lookup-insert k j new m ∙ rw differs refl in
      ap serial_of kept
]

enqueue-IsManned :
    (key : Text) (task : ℕ) (s : System) → IsManned s → IsManned (enqueue key task s).1
unfolding enqueue
enqueue-IsManned key task s h =
    elim (Bool-cases (s.queue.is_cancelled || leb s.queue.max_pending s.queue.pending)) [
      | inl e ↦ rw (enqueue, e) h
      | inr e ↦ elim (Option-cases (lookup key s.queue.chains)) [
        | inr (chain, f) ↦
            rw (enqueue, e, f)
              (record {
                distinct = h.distinct;
                matched = λ k.
                    h.matched k
                    ∙ sym (
                        same_serial key k chain (record chain { tasks = chain.tasks ++ task ∷ [] })
                          s.queue.chains f refl);
              })
        | inl f ↦
            let n = s.queue.next_serial in
            let absent : lookup key (roster s.workers) ≡ none = h.matched key ∙ ap serial_of f in
            let new : Worker = record { key = key; serial = n; current = none } in
            rw (enqueue, e, f)
              (record {
                distinct =
                    subst HasDistinctKeys (sym (roster-append s.workers (new ∷ [])))
                      (append_last-HasDistinctKeys key n (roster s.workers) absent h.distinct);
                matched = λ k.
                    ap (lookup k) (roster-append s.workers (new ∷ []))
                    ∙ lookup-append_last key n (roster s.workers) k absent
                    ∙ ground (
                      arith,
                      h.matched k,
                      lookup-insert key k (record { serial = n; tasks = task ∷ [] }) s.queue.chains,
                    );
              })
      ]
    ]

-- Where a worker has its chain, it leaves only an empty one.
take_task-own :
    (key : Text) (serial : ℕ) (q q' : Queue)
    → serial_of (lookup key q.chains) ≡ some serial
    → take_task key serial q ≡ leave q'
    → q' ≡ record q { chains = delete key q.chains }
unfolding take_task take_from
take_task-own key serial q q' own h = elim (Option-cases (lookup key q.chains)) [
  | inl e ↦ absurd (none-ne-some (sym (ap serial_of e) ∙ own))
  | inr (chain, e) ↦
      let mine : chain.serial ≡ serial = some-eq (sym (ap serial_of e) ∙ own) in
      let pass : (chain.serial == serial) ≡ true =
        subst (λ x. (chain.serial == x) ≡ true) mine (==_refl chain.serial) in
      elim (List-cases chain.tasks) [
        | inl f ↦ sym (leave-injective (rw (take_task, e, pass, take_from, f) at h))
        | inr (x, tasks, f) ↦ absurd (run-ne-leave (rw (take_task, e, pass, take_from, f) at h))
      ]
]
  where
    run-ne-leave : {a b : Queue} {t : ℕ} → ¬ (run_task t a ≡ leave b)
    run-ne-leave e = cc

    leave-injective : {a b : Queue} → leave a ≡ leave b → a ≡ b
    leave-injective e = cc

Step-IsManned : {s t : System} → Step s t → IsManned s → IsManned t
unfolding cancel finish_task
Step-IsManned (enqueued key task s) h = enqueue-IsManned key task s h
Step-IsManned (cancelled s) h = record { distinct = h.distinct; matched = h.matched }
Step-IsManned (finished q before after w task error e) h =
    let same = roster-with_current before after w none in
    record {
      distinct = subst HasDistinctKeys (sym same) h.distinct;
      matched = λ k. ap (lookup k) same ∙ h.matched k;
    }
Step-IsManned (took q q' before after w task e g) h =
    let (chain, tasks, f, front, next_q) = take_task-run w.key w.serial q q' task g in
    let same = roster-with_current before after w (some task) in
    subst
      (λ x. IsManned (record { queue = x; workers = before ++ with_current w (some task) ∷ after }))
      (sym next_q)
      (record {
        distinct = subst HasDistinctKeys (sym same) h.distinct;
        matched = λ k.
            ap (lookup k) same
            ∙ h.matched k
            ∙ sym (same_serial w.key k chain (record chain { tasks = tasks }) q.chains f refl);
      })
Step-IsManned (left q q' before after w e g) h =
    let whole = roster-append before (w ∷ after) in
    let apart : HasDistinctKeys (roster before ++ (w.key, w.serial) ∷ roster after) =
      subst HasDistinctKeys whole h.distinct in
    let own : serial_of (lookup w.key q.chains) ≡ some w.serial =
      sym (h.matched w.key)
      ∙ ap (lookup w.key) whole
      ∙ lookup-here w.key w.serial (roster before) (roster after) apart in
    subst (λ x. IsManned (record { queue = x; workers = before ++ after }))
      (sym (take_task-own w.key w.serial q q' own g))
      (record {
        distinct =
            subst HasDistinctKeys (sym (roster-append before after))
              (remove-HasDistinctKeys w.key w.serial (roster before) (roster after) apart);
        matched = λ k.
            ap (lookup k) (roster-append before after)
            ∙ lookup-remove w.key w.serial (roster before) (roster after) k apart
            ∙ ground (arith, h.matched k, ap (lookup k) whole, lookup-delete w.key k q.chains);
      })

start-IsManned : (limit : ℕ) → IsManned (empty_system limit)
unfolding lookup
start-IsManned limit = record { distinct = tt; matched = λ k. refl }

Reachable-IsManned : (limit : ℕ) {s : System} → Reachable limit s → IsManned s
Reachable-IsManned limit start = start-IsManned limit
Reachable-IsManned limit (next s t r step) = Step-IsManned step (Reachable-IsManned limit r)

-- Whatever steps the callers and the workers of a queue have taken, in any order, the workers have
-- different keys, there is a worker for a key exactly if there is a chain for it, and its chain is
-- the one that it was started for.
pub Reachable-roster :
    (limit : ℕ) (s : System)
    → Reachable limit s
    → HasDistinctKeys (roster s.workers)
      × ((k : Text) → lookup k (roster s.workers) ≡ serial_of (lookup k s.queue.chains))
Reachable-roster limit s r = let h = Reachable-IsManned limit r in (h.distinct, h.matched)
