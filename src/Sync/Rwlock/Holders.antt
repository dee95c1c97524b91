-- ===== src/Sync/Rwlock/Holders.antt =====
-- How many tasks hold the lock, for reading and for writing, and what leaves these numbers alone.
use zurich_os.Base.{
  ℕ, zero, suc, ◌+◌, ◌<◌, ◌≤◌, ◌≡◌, refl, ap, ◌∙◌, Bool, true, false, List, [], ◌∷◌, get_or, set,
  length, length-set, replicate, arith,
}
use zurich_os.Sync.Waitqueue.{Stage, wake_one, wake_all}
use zurich_os.Sync.Rwlock.{Phase, out, read, reading, write, writing, waking, unblocked}

abbrev pub reads : Phase → ℕ
reads reading = 1
reads p = 0

abbrev pub writes : Phase → ℕ
writes writing = 1
writes p = 0

abbrev pub num : Bool → ℕ
num true = 1
num false = 0

-- The number of tasks that count.
abbrev pub total : (Phase → ℕ) → List Phase → ℕ
total w [] = 0
total w (p ∷ ps) = w p + total w ps

pub total-set :
    (w : Phase → ℕ) (t : List Phase) (i : ℕ) (p : Phase)
    → i < length t
    → total w (set t i p) + w (get_or t i out) ≡ total w t + w p
total-set w [] i p lt = absurd (omega arith)
total-set w (q ∷ t) zero p lt = omega arith
total-set w (q ∷ t) (suc i) p lt = omega (arith, total-set w t i p (omega arith))

pub total-set_same :
    (w : Phase → ℕ) (t : List Phase) (i : ℕ) (p : Phase)
    → w p ≡ w (get_or t i out)
    → total w (set t i p) ≡ total w t
total-set_same w [] i p e = refl
total-set_same w (q ∷ t) zero p e = ap (λ n. n + total w t) e
total-set_same w (q ∷ t) (suc i) p e = ap (λ n. w q + n) (total-set_same w t i p e)

pub total-replicate : (w : Phase → ℕ) (n : ℕ) → w out ≡ 0 → total w (replicate n out) ≡ 0
total-replicate w zero e = refl
total-replicate w (suc n) e = omega (arith, total-replicate w n e)

pub total-wake_one :
    (w : Phase → ℕ) (q : List ℕ) (t : List Phase)
    → ((p : Phase) → w (unblocked p) ≡ w p)
    → total w (wake_one out unblocked q t).1 ≡ total w t
unfolding wake_one
total-wake_one w [] t same = refl
total-wake_one w (i ∷ q) t same =
    total-set_same w t i (unblocked (get_or t i out)) (same (get_or t i out))

pub total-wake_all :
    (w : Phase → ℕ) (q : List ℕ) (t : List Phase)
    → ((p : Phase) → w (unblocked p) ≡ w p)
    → total w (wake_all out unblocked q t) ≡ total w t
unfolding wake_all
total-wake_all w [] t same = refl
total-wake_all w (i ∷ q) t same =
    total-wake_all w q (set t i (unblocked (get_or t i out))) same
    ∙ total-set_same w t i (unblocked (get_or t i out)) (same (get_or t i out))

pub length-wake_one :
    (q : List ℕ) (t : List Phase) → length (wake_one out unblocked q t).1 ≡ length t
unfolding wake_one
length-wake_one [] t = refl
length-wake_one (i ∷ q) t = length-set t i (unblocked (get_or t i out))

pub length-wake_all : (q : List ℕ) (t : List Phase) → length (wake_all out unblocked q t) ≡ length t
unfolding wake_all
length-wake_all [] t = refl
length-wake_all (i ∷ q) t =
    length-wake_all q (set t i (unblocked (get_or t i out)))
    ∙ length-set t i (unblocked (get_or t i out))

pub reads-unblocked : (p : Phase) → reads (unblocked p) ≡ reads p
reads-unblocked out = refl
reads-unblocked (read Stage.try) = refl
reads-unblocked (read Stage.park) = refl
reads-unblocked (read Stage.queued) = refl
reads-unblocked (read Stage.asleep) = refl
reads-unblocked reading = refl
reads-unblocked (write Stage.try) = refl
reads-unblocked (write Stage.park) = refl
reads-unblocked (write Stage.queued) = refl
reads-unblocked (write Stage.asleep) = refl
reads-unblocked writing = refl
reads-unblocked (waking w) = refl

pub writes-unblocked : (p : Phase) → writes (unblocked p) ≡ writes p
writes-unblocked out = refl
writes-unblocked (read Stage.try) = refl
writes-unblocked (read Stage.park) = refl
writes-unblocked (read Stage.queued) = refl
writes-unblocked (read Stage.asleep) = refl
writes-unblocked reading = refl
writes-unblocked (write Stage.try) = refl
writes-unblocked (write Stage.park) = refl
writes-unblocked (write Stage.queued) = refl
writes-unblocked (write Stage.asleep) = refl
writes-unblocked writing = refl
writes-unblocked (waking w) = refl

pub total_reads-le : (t : List Phase) → total reads t ≤ length t
total_reads-le [] = omega arith
total_reads-le (p ∷ t) = omega (arith, one p, total_reads-le t)
  where
    one : (p : Phase) → reads p ≤ 1
    one out = omega arith
    one (read s) = omega arith
    one reading = omega arith
    one (write s) = omega arith
    one writing = omega arith
    one (waking w) = omega arith
