-- ===== src/Sync/Mutex/Held.antt =====
-- mutex.c: the task that `owner_task` points to, and what a change of one task's phase does to that.
use zurich_os.Base.{
  ℕ, ◌<◌, ◌≡◌, ◌≢◌, refl, sym, ap, ◌∙◌, Bool, true, false, not, Option, none, some, List, [], ◌∷◌,
  ◌==◌, get_or, set, length, get_or-set_cases, get_or-set_self, get_or-set_ne, Bool-cases, inl, inr,
  arith,
}
use zurich_os.Sync.Waitqueue.{Stage, wake_one, wake_all}
use zurich_os.Sync.Mutex.{
  Mutex, Phase, out, lock, relock, holding, waking, linked, released, parking, waiting, unblocked,
  System, take_mutex,
}

-- Between the end of a lock and the start of an unlock.
abbrev pub holds : Phase → Bool
holds holding = true
holds linked = true
holds (relock s) = true
holds p = false

abbrev pub is_owner : Option ℕ → ℕ → Bool
is_owner none j = false
is_owner (some o) j = o == j

abbrev pub is_some : Option ℕ → Bool
is_some none = false
is_some (some o) = true

abbrev pub Held : Option ℕ → List Phase → Type 0
Held owner t = (j : ℕ) → holds (get_or t j out) ≡ is_owner owner j

-- The tasks that hold the mutex are those that it names, and it is locked when it names one.
pub record Owned (m : Mutex) (t : List Phase) : Type 0 where
  pub by_phase : (j : ℕ) → holds (get_or t j out) ≡ is_owner m.owner_task j
  pub marked : m.locked ≡ is_some m.owner_task

pub set-Held :
    (owner : Option ℕ) (t : List Phase) (i : ℕ) (p : Phase)
    → Held owner t
    → holds p ≡ holds (get_or t i out)
    → Held owner (set t i p)
set-Held owner t i p h e j =
    get_or-set_cases (λ q. holds q ≡ is_owner owner j) t i j p out
      (λ same. e ∙ h i ∙ ap (is_owner owner) same) (h j)

pub holds-unblocked : (p : Phase) → holds (unblocked p) ≡ holds p
holds-unblocked out = refl
holds-unblocked (lock Stage.try) = refl
holds-unblocked (lock Stage.park) = refl
holds-unblocked (lock Stage.queued) = refl
holds-unblocked (lock Stage.asleep) = refl
holds-unblocked (relock Stage.try) = refl
holds-unblocked (relock Stage.park) = refl
holds-unblocked (relock Stage.queued) = refl
holds-unblocked (relock Stage.asleep) = refl
holds-unblocked holding = refl
holds-unblocked waking = refl
holds-unblocked linked = refl
holds-unblocked released = refl
holds-unblocked parking = refl
holds-unblocked waiting = refl

pub wake_one-Held :
    (owner : Option ℕ) (q : List ℕ) (t : List Phase)
    → Held owner t
    → Held owner (wake_one out unblocked q t).1
unfolding wake_one
wake_one-Held owner [] t h = h
wake_one-Held owner (i ∷ q) t h =
    set-Held owner t i (unblocked (get_or t i out)) h (holds-unblocked (get_or t i out))

pub wake_all-Held :
    (owner : Option ℕ) (q : List ℕ) (t : List Phase)
    → Held owner t
    → Held owner (wake_all out unblocked q t)
unfolding wake_all
wake_all-Held owner [] t h = h
wake_all-Held owner (i ∷ q) t h =
    wake_all-Held owner q (set t i (unblocked (get_or t i out)))
      (set-Held owner t i (unblocked (get_or t i out)) h (holds-unblocked (get_or t i out)))

not_locked : (owner : Option ℕ) → is_some owner ≡ false → owner ≡ none
not_locked none e = refl
not_locked (some o) e = absurd (ground arith)

others_free :
    (owner : Option ℕ) (i j : ℕ) → is_owner owner i ≡ true → i ≢ j → is_owner owner j ≡ false
others_free none i j e ne = refl
others_free (some o) i j e ne = ground arith

module _ (s : System) (i : ℕ) (o : Owned s.mutex s.tasks) where
  pub set-Owned :
      (p : Phase) → holds p ≡ holds (get_or s.tasks i out) → Owned s.mutex (set s.tasks i p)
  set-Owned p e = record {
    by_phase = set-Held s.mutex.owner_task s.tasks i p o.by_phase e;
    marked = o.marked;
  }

  -- A task that finds the mutex free becomes its owner.
  pub taken-Owned :
      i < length s.tasks
      → not s.mutex.locked ≡ true
      → Owned (take_mutex s i) (set s.tasks i holding)
  taken-Owned lt free = record { by_phase = now; marked = refl }
    where
      nobody : s.mutex.owner_task ≡ none
      nobody = not_locked s.mutex.owner_task (sym o.marked ∙ ground arith)

      now : (j : ℕ) → holds (get_or (set s.tasks i holding) j out) ≡ (i == j)
      now j = elim (Bool-cases (i == j)) [
        | inl same ↦
            rw (← the_same j same)
              (ap holds (get_or-set_self s.tasks i holding out lt) ∙ ground arith)
        | inr other ↦
            ap holds (get_or-set_ne s.tasks i j holding out (λ e. ground arith))
            ∙ o.by_phase j
            ∙ ap (λ (x : Option ℕ). is_owner x j) nobody
            ∙ sym other
      ]
        where
          the_same : (j : ℕ) → (i == j) ≡ true → i ≡ j
          the_same j e = ground arith

  -- A task that holds the mutex gives it up.
  pub released-Owned :
      (p : Phase)
      → i < length s.tasks
      → holds (get_or s.tasks i out) ≡ true
      → holds p ≡ false
      → Owned (record s.mutex { locked = false; owner = 0; owner_task = none }) (set s.tasks i p)
  released-Owned p lt held e = record {
    by_phase = λ j. elim (Bool-cases (i == j)) [
      | inl same ↦ rw (← the_same j same) (ap holds (get_or-set_self s.tasks i p out lt) ∙ e)
      | inr other ↦
          ap holds (get_or-set_ne s.tasks i j p out (λ e'. ground arith))
          ∙ o.by_phase j
          ∙ others_free s.mutex.owner_task i j (sym (o.by_phase i) ∙ held) (λ e'. ground arith)
    ];
    marked = refl;
  }
    where
      the_same : (j : ℕ) → (i == j) ≡ true → i ≡ j
      the_same j e = ground arith
