-- ===== src/Sched/Ready.antt =====
-- The ready queue of kernel/sched/scheduler.c as the list of the tasks that its pointers lead
-- through: adding appends to it, popping takes its first.
use zurich_os.Base.{
  ℕ, ◌<◌, ◌≡◌, ◌≢◌, refl, sym, ap, ◌∙◌, Option, none, some, List, [], ◌∷◌, ◌++◌, length, arith,
}
use zurich_os.Sched.{
  ready, Task, Scheduler, task_at, modify, made_ready, linked_to, unlinked, link_last,
  ready_queue_add, tail_after, pop_at, ready_queue_pop,
}
use zurich_os.Sched.Queue.{
  NotIn, Distinct, last?, Chain, AllReady, Queued, task_at-modify_self, task_at-modify_ne,
  length-modify, Chain-modify, AllReady-modify, AllReady-modify_any, Distinct-append, last?-append,
  AllReady-append, NotIn-last,
}

-- Linking the last task to a new one at the end.
Chain-link :
    (tasks : List Task) (i t : ℕ) (q : List ℕ) (h : Option ℕ)
    → Chain tasks h q
    → Distinct q
    → NotIn i q
    → last? q ≡ some t
    → t < length tasks
    → (task_at tasks i).next ≡ none
    → Chain (modify tasks t (linked_to i)) h (q ++ i ∷ [])
Chain-link tasks i t [] h c d out e lt end = absurd (ground arith)
Chain-link tasks i t (j ∷ q) none c d out e lt end = c
Chain-link tasks i t (j ∷ []) (some h) c d out e lt end =
    let same : j ≡ t = ground arith in
    (
      c.0,
      rw
          (
            ap (λ k. (task_at (modify tasks t (linked_to i)) k).next) same,
            ap (λ (x : Task). x.next) (task_at-modify_self tasks t (linked_to i) lt),
          )
          (
            refl,
            rw (task_at-modify_ne tasks t i (linked_to i) (λ p. out.0 (sym (same ∙ p))), end) tt,
          ),
    )
Chain-link tasks i t (j ∷ k ∷ q) (some h) c d out e lt end = (
  c.0,
  rw (task_at-modify_ne tasks t j (linked_to i) (NotIn-last j k t q d.0 e))
      (Chain-link tasks i t (k ∷ q) (task_at tasks j).next c.1 d.1 out.1 e lt end),
)

within-last :
    (tasks : List Task) (t : ℕ) (q : List ℕ)
    → last? q ≡ some t
    → AllReady tasks q
    → t < length tasks
within-last tasks t [] e a = absurd (ground arith)
within-last tasks t (x ∷ []) e a = let same : x ≡ t = ground arith in rw same at a.0
within-last tasks t (x ∷ y ∷ q) e a = within-last tasks t (y ∷ q) e a.2

last?-ne-none : (x : ℕ) (q : List ℕ) → last? (x ∷ q) ≢ none
last?-ne-none x [] e = cc
last?-ne-none x (y ∷ q) e = last?-ne-none y q e

-- A task that is ready, ends the chain and is not in the queue yet becomes its last.
link_last-Queued :
    (s : Scheduler) (i : ℕ) (q : List ℕ) (t : Option ℕ)
    → Queued s q
    → NotIn i q
    → i < length s.tasks
    → (task_at s.tasks i).next ≡ none
    → (task_at s.tasks i).state ≡ ready
    → s.tail ≡ t
    → Queued (link_last s i t) (q ++ i ∷ [])
unfolding link_last
link_last-Queued s i [] none o out lt end st e = record {
  chain = (refl, rw end tt);
  tail = refl;
  distinct = (tt, tt);
  ready = (lt, st, tt);
}
link_last-Queued s i (x ∷ q) none o out lt end st e = absurd (last?-ne-none x q (sym o.tail ∙ e))
link_last-Queued s i q (some t) o out lt end st e =
    let is_last : last? q ≡ some t = sym o.tail ∙ e in
    record {
      chain =
          Chain-link s.tasks i t q s.head o.chain o.distinct out is_last
            (within-last s.tasks t q is_last o.ready) end;
      tail = sym (last?-append i q);
      distinct = Distinct-append i q out o.distinct;
      ready =
          AllReady-modify_any s.tasks t (linked_to i) (q ++ i ∷ []) (λ x. refl)
            (AllReady-append s.tasks i q o.ready lt st);
    }

-- Fields of the scheduler other than the queue do not matter to it.
pub Queued-modify :
    (s : Scheduler) (i : ℕ) (f : Task → Task) (q : List ℕ)
    → Queued s q
    → NotIn i q
    → Queued (record s { tasks = modify s.tasks i f }) q
Queued-modify s i f q o out = record {
  chain = Chain-modify s.tasks i f q s.head out o.chain;
  tail = o.tail;
  distinct = o.distinct;
  ready = AllReady-modify s.tasks i f q out o.ready;
}

-- Adding a task that is not in the queue appends it.
pub ready_queue_add-Queued :
    (s : Scheduler) (i : ℕ) (q : List ℕ)
    → Queued s q
    → NotIn i q
    → i < length s.tasks
    → Queued (ready_queue_add s i) (q ++ i ∷ [])
unfolding ready_queue_add
ready_queue_add-Queued s i q o out lt =
    let made = task_at-modify_self s.tasks i made_ready lt in
    link_last-Queued (record s { tasks = modify s.tasks i made_ready }) i q s.tail
      (Queued-modify s i made_ready q o out) out (rw (length-modify s.tasks i made_ready) lt)
      (ap (λ (t : Task). t.next) made) (ap (λ (t : Task). t.state) made) refl

head_of_nil : (tasks : List Task) (h : Option ℕ) → Chain tasks h [] → h ≡ none
head_of_nil tasks none c = refl
head_of_nil tasks (some h) c = absurd c

head_of_cons :
    (tasks : List Task) (h : Option ℕ) (j : ℕ) (q : List ℕ) → Chain tasks h (j ∷ q) → h ≡ some j
head_of_cons tasks none j q c = absurd c
head_of_cons tasks (some h) j q c = ap some c.0

Chain-tail :
    (tasks : List Task) (h : Option ℕ) (j : ℕ) (q : List ℕ)
    → Chain tasks h (j ∷ q)
    → Chain tasks (task_at tasks j).next q
Chain-tail tasks none j q c = absurd c
Chain-tail tasks (some h) j q c = c.1

tail_after-last? :
    (tasks : List Task) (after tail : Option ℕ) (j : ℕ) (q : List ℕ)
    → Chain tasks after q
    → tail ≡ last? (j ∷ q)
    → tail_after after tail ≡ last? q
tail_after-last? tasks none tail j [] c e = refl
tail_after-last? tasks (some a) tail j [] c e = absurd c
tail_after-last? tasks none tail j (k ∷ q) c e = absurd c
tail_after-last? tasks (some a) tail j (k ∷ q) c e = e

-- Popping an empty queue finds nothing and changes nothing.
pub ready_queue_pop_empty : (s : Scheduler) → Queued s [] → ready_queue_pop s ≡ (none, s)
unfolding ready_queue_pop pop_at
ready_queue_pop_empty s o = ap (pop_at s) (head_of_nil s.tasks s.head o.chain)

-- What popping leaves of a queue whose first task is `j`.
abbrev pub popped : Scheduler → ℕ → Scheduler
popped s j =
    let after = (task_at s.tasks j).next in
    record s { head = after; tail = tail_after after s.tail; tasks = modify s.tasks j unlinked }

-- Popping gives the first task of the queue, and leaves the others.
pub ready_queue_pop_cons :
    (s : Scheduler) (j : ℕ) (q : List ℕ)
    → Queued s (j ∷ q)
    → (ready_queue_pop s ≡ (some j, popped s j)) × Queued (popped s j) q
unfolding ready_queue_pop pop_at
ready_queue_pop_cons s j q o =
    let rest = Chain-tail s.tasks s.head j q o.chain in
    (
      ap (pop_at s) (head_of_cons s.tasks s.head j q o.chain),
      record {
        chain = Chain-modify s.tasks j unlinked q (task_at s.tasks j).next o.distinct.0 rest;
        tail = tail_after-last? s.tasks (task_at s.tasks j).next s.tail j q rest o.tail;
        distinct = o.distinct.1;
        ready = AllReady-modify s.tasks j unlinked q o.distinct.0 o.ready.2;
      },
    )
