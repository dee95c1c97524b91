-- ===== src/Memory/Heap/Runs.antt =====
-- kernel/mm/heap.c: the allocations after any run of calls.
use zurich_os.Base.{ℕ, ◌+◌, ◌≤◌, ◌≡◌, refl, ap, ◌∙◌, Bool, Option, none, some, List, [], ◌∷◌}
use mathlib.Core.Path.{subst}
use zurich_os.Memory.Heap.{Heap, header_size, guard_size, kmalloc, kfree}
use zurich_os.Memory.Heap.Layout.{IsOk}
use zurich_os.Memory.Heap.Sound.{
  Modest, MaybeOk, IsFreeable, kmalloc-IsOk, kfree-MaybeOk, kfree-IsFreeable,
}
use zurich_os.Memory.Heap.Live.{Live, Live-bounds, Apart, Live-Apart}

pub data Call : Type 0 where
  malloc : ℕ → ℕ → Call
  free : Bool → ℕ → Call

abbrev pub apply : Call → Heap → Option Heap
apply (malloc stale size) h = some (kmalloc stale size h).1
apply (free magic ptr) h = kfree magic ptr h

abbrev pub run : List Call → Option Heap → Option Heap
run calls none = none
run [] (some h) = some h
run (call ∷ calls) (some h) = run calls (apply call h)

-- A size asked for wraps nowhere, and a pointer that is freed is null, belongs to a block of the list,
-- or has no magic number in front.
abbrev pub IsAllowed : Call → Heap → Type 0
IsAllowed (malloc stale size) h = Modest h size
IsAllowed (free magic ptr) h = IsFreeable magic ptr h

-- Each call is allowed where it is made.
abbrev pub AllAllowed : List Call → Option Heap → Type 0
AllAllowed calls none = Unit {0}
AllAllowed [] (some h) = Unit {0}
AllAllowed (call ∷ calls) (some h) = IsAllowed call h × AllAllowed calls (apply call h)

pub run-IsOk :
    (calls : List Call) (h : Heap)
    → IsOk h
    → AllAllowed calls (some h)
    → (h' : Heap) × (run calls (some h) ≡ some h') × IsOk h'
run-IsOk [] h o m = (h, refl, o)
run-IsOk (malloc stale size ∷ calls) h o m =
    run-IsOk calls (kmalloc stale size h).1 (kmalloc-IsOk stale size h o m.0) m.1
run-IsOk (free magic ptr ∷ calls) h o m =
    let (h', e) = kfree-IsFreeable magic ptr h m.0 in
    let (h'', e', o'') = run-IsOk calls h' (after h' e) (allowed h' e) in
    (h'', ap (run calls) e ∙ e', o'')
  where
    after : (h' : Heap) → kfree magic ptr h ≡ some h' → IsOk h'
    after h' e = subst MaybeOk e (kfree-MaybeOk magic ptr h o)

    allowed : (h' : Heap) → kfree magic ptr h ≡ some h' → AllAllowed calls (some h')
    allowed h' e = subst (AllAllowed calls) e m.1

-- Any calls, while the sizes asked for are so small that no sum wraps, and while each pointer freed is
-- null, belongs to a block of the list or has no magic number in front, leave a heap in which every live
-- allocation lies with its guard inside the heap, and two of them are the same or do not overlap.
pub run-Apart :
    (calls : List Call) (h : Heap)
    → IsOk h
    → AllAllowed calls (some h)
    → (h' : Heap) × (run calls (some h) ≡ some h')
      × ((p n q m : ℕ)
          → Live p n h'.blocks
          → Live q m h'.blocks
          → (h'.heap_start + header_size ≤ p) × (p + n + guard_size ≤ h'.heap_end) × Apart p n q m)
run-Apart calls h o all =
    let (h', e, o') = run-IsOk calls h o all in
    (
      h',
      e,
      λ p n q m v w.
          let inside = Live-bounds p n h'.heap_start h'.heap_end h'.blocks o'.laid o'.fits v in
          (
            inside.0,
            inside.1,
            Live-Apart p n q m h'.heap_start h'.heap_end h'.blocks o'.laid o'.fits v w,
          ),
    )
