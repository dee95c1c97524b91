-- ===== src/Security/Capabilities/Sound.antt =====
-- The invariant of the capability table: no process has in effect what it is not permitted.
use zurich_os.Base.{
  ℕ, ◌^◌, ◌<◌, ◌≡◌, ◌↔◌, true, false, ◌||◌, List, [], ◌∷◌, ltb, leb, ◌==◌, if_holds, if◌then◌else◌,
  ap, ℤ, arith, length, length-set, length-replicate, set, bit_and, bit_or, get_or-set_keeps,
  get_or-replicate, replicate,
}
use zurich_os.Base.Bits.{bit, bit_not, bit-bit_and, bit-bit_or, bit_and-lt, bit_or-lt, bit_ext}
use zurich_os.Security.Capabilities.{
  Caps, max_processes, cleared, full, Table, entry, init, capability_has, Call, set_caps, drop,
  grant, inherit, clear, apply, run,
}

pub record IsSound (c : Caps) : Type 0 where
  pub within : (i : ℕ) → bit c.effective i ≡ true → bit c.permitted i ≡ true
  pub effective_fits : c.effective < 2 ^ 64
  pub permitted_fits : c.permitted < 2 ^ 64
  pub inheritable_fits : c.inheritable < 2 ^ 64

pub record AllSound (t : Table) : Type 0 where
  pub size : length t ≡ max_processes
  pub each : (pid : ℕ) → IsSound (entry t pid)

-- A mask that a caller passes is a `uint64_t`.
abbrev pub Fits : Call → Type 0
Fits (set_caps pid caps) = caps < 2 ^ 64
Fits (drop pid cap) = cap < 2 ^ 64
Fits (grant pid cap) = cap < 2 ^ 64
Fits (inherit parent child) = Unit {0}
Fits (clear pid) = Unit {0}

abbrev pub AllFit : List Call → Type 0
AllFit [] = Unit {0}
AllFit (c ∷ cs) = Fits c × AllFit cs

cleared-IsSound : IsSound cleared
cleared-IsSound = record {
  within = λ i h. h;
  effective_fits = omega arith;
  permitted_fits = omega arith;
  inheritable_fits = omega arith;
}

full-IsSound : IsSound full
full-IsSound = record {
  within = λ i h. h;
  effective_fits = omega arith;
  permitted_fits = omega arith;
  inheritable_fits = omega arith;
}

set-AllSound : (t : Table) (i : ℕ) (c : Caps) → AllSound t → IsSound c → AllSound (set t i c)
set-AllSound t i c a s = record {
  size = omega (arith, length-set t i c, a.size);
  each = λ pid. get_or-set_keeps IsSound t i pid c cleared s (a.each pid);
}

-- After `capabilities_init` the table is sound.
pub init-AllSound : AllSound init
unfolding init
init-AllSound = set-AllSound _ 1 full (set-AllSound _ 0 full blank full-IsSound) full-IsSound
  where
    blank : AllSound (replicate max_processes cleared)
    blank = record {
      size = length-replicate max_processes cleared;
      each = λ pid. rw (get_or-replicate max_processes pid cleared) cleared-IsSound;
    }

masked_within :
    (a b m i : ℕ)
    → (bit a i ≡ true → bit b i ≡ true)
    → bit (bit_and a m) i ≡ true
    → bit (bit_and b m) i ≡ true
masked_within a b m i w h = ground (arith, bit-bit_and a m i, bit-bit_and b m i)

set_caps_IsSound :
    (c : Caps) (m : ℕ)
    → m < 2 ^ 64
    → IsSound c
    → IsSound (record c { effective = bit_and m c.permitted })
set_caps_IsSound c m f s = record {
  within = λ i h. ground (arith, bit-bit_and m c.permitted i);
  effective_fits = bit_and-lt m c.permitted 64 f;
  permitted_fits = s.permitted_fits;
  inheritable_fits = s.inheritable_fits;
}

drop_IsSound :
    (c : Caps) (m : ℕ)
    → IsSound c
    → IsSound (record c { effective = bit_and c.effective m; permitted = bit_and c.permitted m })
drop_IsSound c m s = record {
  within = λ i h. masked_within c.effective c.permitted m i (s.within i) h;
  effective_fits = bit_and-lt c.effective m 64 s.effective_fits;
  permitted_fits = bit_and-lt c.permitted m 64 s.permitted_fits;
  inheritable_fits = s.inheritable_fits;
}

grant_IsSound :
    (c : Caps) (m : ℕ)
    → m < 2 ^ 64
    → IsSound c
    → IsSound (record c { permitted = bit_or c.permitted m; effective = bit_or c.effective m })
grant_IsSound c m f s = record {
  within =
      λ i h. ground (arith, bit-bit_or c.effective m i, bit-bit_or c.permitted m i, s.within i);
  effective_fits = bit_or-lt c.effective m 64 s.effective_fits f;
  permitted_fits = bit_or-lt c.permitted m 64 s.permitted_fits f;
  inheritable_fits = s.inheritable_fits;
}

inherit_IsSound :
    (c : Caps)
    → IsSound c
    → IsSound (record {
      permitted = c.inheritable;
      effective = c.inheritable;
      inheritable = c.inheritable;
    })
inherit_IsSound c s = record {
  within = λ i h. h;
  effective_fits = s.inheritable_fits;
  permitted_fits = s.inheritable_fits;
  inheritable_fits = s.inheritable_fits;
}

-- Every call keeps the table sound.
pub apply-AllSound : (c : Call) (t : Table) → Fits c → AllSound t → AllSound (apply c t)
unfolding apply
apply-AllSound (set_caps pid m) t f a =
    if_holds (λ (r : Table × ℤ). AllSound r.0) (ltb pid max_processes)
      (set-AllSound t pid _ a (set_caps_IsSound (entry t pid) m f (a.each pid))) a
apply-AllSound (drop pid m) t f a =
    if_holds (λ (r : Table × ℤ). AllSound r.0) (ltb pid max_processes)
      (set-AllSound t pid _ a (drop_IsSound (entry t pid) (bit_not 64 m) (a.each pid))) a
apply-AllSound (grant pid m) t f a =
    if_holds (λ (r : Table × ℤ). AllSound r.0) (ltb pid max_processes)
      (set-AllSound t pid _ a (grant_IsSound (entry t pid) m f (a.each pid))) a
apply-AllSound (inherit parent child) t f a =
    if_holds AllSound (leb max_processes parent || leb max_processes child) a
      (set-AllSound t child _ a (inherit_IsSound (entry t parent) (a.each parent)))
apply-AllSound (clear pid) t f a =
    if_holds AllSound (ltb pid max_processes) (set-AllSound t pid _ a cleared-IsSound) a

run_keeps : (cs : List Call) (t : Table) → AllFit cs → AllSound t → AllSound (run cs t)
unfolding run
run_keeps [] t f a = a
run_keeps (c ∷ cs) t f a = run_keeps cs (apply c t) f.1 (apply-AllSound c t f.0 a)

-- After `capabilities_init` and any calls with 64-bit masks, whatever capability a process has in
-- effect is one that it is permitted.
pub run-within :
    (cs : List Call) (pid i : ℕ)
    → AllFit cs
    → bit (entry (run cs init) pid).effective i ≡ true
    → bit (entry (run cs init) pid).permitted i ≡ true
run-within cs pid i f = ((run_keeps cs init f init-AllSound).each pid).within i

-- `capability_has` answers yes exactly when every bit of the mask is in effect.
pub capability_has_iff :
    (t : Table) (pid cap : ℕ)
    → AllSound t
    → pid < max_processes
    → cap < 2 ^ 64
    → (capability_has t pid cap ≡ true)
      ↔ ((i : ℕ) → i < 64 → bit cap i ≡ true → bit (entry t pid).effective i ≡ true)
unfolding capability_has
capability_has_iff t pid cap a lt f = (there, back)
  where
    e : ℕ
    e = (entry t pid).effective

    there :
        (if ltb pid max_processes then bit_and e cap == cap else false) ≡ true
        → (i : ℕ) → i < 64
        → bit cap i ≡ true
        → bit e i ≡ true
    there h i p b =
        let same : bit_and e cap ≡ cap = ground arith in
        ground (arith, bit-bit_and e cap i, ap (λ k. bit k i) same)

    back :
        ((i : ℕ) → i < 64 → bit cap i ≡ true → bit e i ≡ true)
        → (if ltb pid max_processes then bit_and e cap == cap else false) ≡ true
    back h =
        let same : bit_and e cap ≡ cap =
          bit_ext 64 (bit_and e cap) cap (bit_and-lt e cap 64 (a.each pid).effective_fits) f
            (λ i p. ground (arith, bit-bit_and e cap i, h i p)) in
        ground arith
