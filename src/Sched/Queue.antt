-- ===== src/Sched/Queue.antt =====
-- The ready queue of kernel/sched/scheduler.c as the list of the tasks that its pointers lead
-- through.
use zurich_os.Base.{
  ℕ, ◌<◌, ◌≡◌, ◌≢◌, refl, sym, ap, ◌∙◌, Option, none, some, List, [], ◌∷◌, ◌++◌, length, arith,
  length-set, get_or-set_self, get_or-set_ne, get_or-set_cases,
}
use zurich_os.Sched.{ready, Task, Scheduler, task_at, modify, zero_task}

abbrev pub NotIn : ℕ → List ℕ → Type 0
NotIn i [] = Unit {0}
NotIn i (j ∷ q) = (i ≢ j) × NotIn i q

abbrev pub Distinct : List ℕ → Type 0
Distinct [] = Unit {0}
Distinct (j ∷ q) = NotIn j q × Distinct q

abbrev pub last? : List ℕ → Option ℕ
last? [] = none
last? (x ∷ []) = some x
last? (x ∷ y ∷ q) = last? (y ∷ q)

-- From the pointer, `next` leads through the tasks of the list and no further.
abbrev pub Chain : List Task → Option ℕ → List ℕ → Type 0
Chain tasks none [] = Unit {0}
Chain tasks (some i) [] = ⊥
Chain tasks none (j ∷ q) = ⊥
Chain tasks (some i) (j ∷ q) = (i ≡ j) × Chain tasks (task_at tasks j).next q

-- Every task of the list is an entry of the table and in state ready.
abbrev pub AllReady : List Task → List ℕ → Type 0
AllReady tasks [] = Unit {0}
AllReady tasks (j ∷ q) = (j < length tasks) × ((task_at tasks j).state ≡ ready) × AllReady tasks q

-- What the ready queue holds.
pub record Queued (s : Scheduler) (q : List ℕ) : Type 0 where
  pub chain : Chain s.tasks s.head q
  pub tail : s.tail ≡ last? q
  pub distinct : Distinct q
  pub ready : AllReady s.tasks q

pub task_at-modify_self :
    (tasks : List Task) (i : ℕ) (f : Task → Task)
    → i < length tasks
    → task_at (modify tasks i f) i ≡ f (task_at tasks i)
task_at-modify_self tasks i f lt = get_or-set_self tasks i (f (task_at tasks i)) zero_task lt

pub task_at-modify_ne :
    (tasks : List Task) (i j : ℕ) (f : Task → Task)
    → i ≢ j
    → task_at (modify tasks i f) j ≡ task_at tasks j
task_at-modify_ne tasks i j f ne = get_or-set_ne tasks i j (f (task_at tasks i)) zero_task ne

pub length-modify :
    (tasks : List Task) (i : ℕ) (f : Task → Task) → length (modify tasks i f) ≡ length tasks
length-modify tasks i f = length-set tasks i (f (task_at tasks i))

-- A task outside the queue may be changed.
pub Chain-modify :
    (tasks : List Task) (i : ℕ) (f : Task → Task) (q : List ℕ) (h : Option ℕ)
    → NotIn i q
    → Chain tasks h q
    → Chain (modify tasks i f) h q
Chain-modify tasks i f [] none out c = tt
Chain-modify tasks i f [] (some h) out c = c
Chain-modify tasks i f (j ∷ q) none out c = c
Chain-modify tasks i f (j ∷ q) (some h) out c = (
  c.0,
  rw (task_at-modify_ne tasks i j f out.0)
      (Chain-modify tasks i f q (task_at tasks j).next out.1 c.1),
)

pub AllReady-modify :
    (tasks : List Task) (i : ℕ) (f : Task → Task) (q : List ℕ)
    → NotIn i q
    → AllReady tasks q
    → AllReady (modify tasks i f) q
AllReady-modify tasks i f [] out a = tt
AllReady-modify tasks i f (j ∷ q) out a = (
  rw (length-modify tasks i f) a.0,
  rw (task_at-modify_ne tasks i j f out.0) a.1,
  AllReady-modify tasks i f q out.1 a.2,
)

pub state-modify :
    (tasks : List Task) (i j : ℕ) (f : Task → Task)
    → ((t : Task) → (f t).state ≡ t.state)
    → (task_at (modify tasks i f) j).state ≡ (task_at tasks j).state
state-modify tasks i j f same =
    get_or-set_cases (λ (t : Task). t.state ≡ (task_at tasks j).state) tasks i j
      (f (task_at tasks i)) zero_task
      (λ e. same (task_at tasks i) ∙ ap (λ k. (task_at tasks k).state) e) refl

-- A change that leaves states alone.
pub AllReady-modify_any :
    (tasks : List Task) (i : ℕ) (f : Task → Task) (q : List ℕ)
    → ((t : Task) → (f t).state ≡ t.state)
    → AllReady tasks q
    → AllReady (modify tasks i f) q
AllReady-modify_any tasks i f [] same a = tt
AllReady-modify_any tasks i f (j ∷ q) same a = (
  rw (length-modify tasks i f) a.0,
  state-modify tasks i j f same ∙ a.1,
  AllReady-modify_any tasks i f q same a.2,
)

-- A task that is not ready is not in the queue.
pub NotIn-queue :
    (tasks : List Task) (i : ℕ) (q : List ℕ)
    → (task_at tasks i).state ≢ ready
    → AllReady tasks q
    → NotIn i q
NotIn-queue tasks i [] ne a = tt
NotIn-queue tasks i (j ∷ q) ne a =
    ((λ e. ne (ap (λ k. (task_at tasks k).state) e ∙ a.1)), NotIn-queue tasks i q ne a.2)

pub NotIn-append : (i j : ℕ) (q : List ℕ) → NotIn i q → i ≢ j → NotIn i (q ++ j ∷ [])
NotIn-append i j [] out ne = (ne, tt)
NotIn-append i j (k ∷ q) out ne = (out.0, NotIn-append i j q out.1 ne)

pub Distinct-append : (i : ℕ) (q : List ℕ) → NotIn i q → Distinct q → Distinct (q ++ i ∷ [])
Distinct-append i [] out d = (tt, tt)
Distinct-append i (k ∷ q) out d =
    (NotIn-append k i q d.0 (λ e. out.0 (sym e)), Distinct-append i q out.1 d.1)

pub last?-append : (i : ℕ) (q : List ℕ) → last? (q ++ i ∷ []) ≡ some i
last?-append i [] = refl
last?-append i (x ∷ []) = refl
last?-append i (x ∷ y ∷ q) = last?-append i (y ∷ q)

pub AllReady-append :
    (tasks : List Task) (i : ℕ) (q : List ℕ)
    → AllReady tasks q
    → i < length tasks
    → (task_at tasks i).state ≡ ready
    → AllReady tasks (q ++ i ∷ [])
AllReady-append tasks i [] a lt e = (lt, e, tt)
AllReady-append tasks i (k ∷ q) a lt e = (a.0, a.1, AllReady-append tasks i q a.2 lt e)

-- The last of a queue is not its first, where there are two.
pub NotIn-last : (j k t : ℕ) (q : List ℕ) → NotIn j (k ∷ q) → last? (k ∷ q) ≡ some t → t ≢ j
NotIn-last j k t [] out e same = out.0 (ground arith)
NotIn-last j k t (m ∷ q) out e same = NotIn-last j m t q out.1 e same
