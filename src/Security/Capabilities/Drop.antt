-- ===== src/Security/Capabilities/Drop.antt =====
-- A dropped capability does not come back by itself.
use zurich_os.Base.{
  ℕ, ◌^◌, ◌<◌, ◌≡◌, ap, ◌∙◌, Bool, true, false, ◌||◌, not, List, [], ◌∷◌, ltb, leb, ◌==◌, if_holds,
  lt→ltb, arith, set, get_or-set_self, get_or-set_cases, bit_and, ℤ,
}
use zurich_os.Base.Bits.{bit, bit_not, bit-bit_and, bit-bit_not, bit-zero}
use zurich_os.Security.Capabilities.{
  Caps, max_processes, cleared, Table, entry, capability_get, capability_drop, Call, set_caps, drop,
  grant, inherit, clear, apply, run,
}
use zurich_os.Security.Capabilities.Sound.{AllSound}

-- Whether a call can give capabilities to `pid`.
abbrev pub regains : ℕ → Call → Bool
regains pid (grant p cap) = p == pid
regains pid (inherit parent child) = child == pid
regains pid _ = false

abbrev pub any_regains : ℕ → List Call → Bool
any_regains pid [] = false
any_regains pid (c ∷ cs) = regains pid c || any_regains pid cs

abbrev Lacks : ℕ → Caps → Type 0
Lacks i c = (bit c.effective i ≡ false) × (bit c.permitted i ≡ false)

masked_lacks : (a m i : ℕ) → bit a i ≡ false → bit (bit_and a m) i ≡ false
masked_lacks a m i h = ground (arith, bit-bit_and a m i)

also_masked_lacks : (a m i : ℕ) → bit a i ≡ false → bit (bit_and m a) i ≡ false
also_masked_lacks a m i h = ground (arith, bit-bit_and m a i)

module _ (pid i : ℕ) where
  abbrev Kept : Table → Type 0
  Kept t = Lacks i (entry t pid)

  write_keeps : (t : Table) (p : ℕ) (c : Caps) → Kept t → (p ≡ pid → Lacks i c) → Kept (set t p c)
  write_keeps t p c k h = get_or-set_cases (Lacks i) t p pid c cleared h k

  module _ (t : Table) (k : Kept t) where
    here : (p : ℕ) → p ≡ pid → Lacks i (entry t p)
    here p e = rw e k

    apply_keeps : (c : Call) → regains pid c ≡ false → Kept (apply c t)
    unfolding apply
    apply_keeps (set_caps p m) r =
        if_holds (λ (x : Table × ℤ). Kept x.0) (ltb p max_processes)
          (write_keeps t p _ k
            (λ e. (also_masked_lacks (entry t p).permitted m i (here p e).1, (here p e).1)))
          k
    apply_keeps (drop p m) r =
        if_holds (λ (x : Table × ℤ). Kept x.0) (ltb p max_processes)
          (write_keeps t p _ k (λ e. (
            masked_lacks (entry t p).effective (bit_not 64 m) i (here p e).0,
            masked_lacks (entry t p).permitted (bit_not 64 m) i (here p e).1,
          )))
          k
    apply_keeps (grant p m) r =
        if_holds (λ (x : Table × ℤ). Kept x.0) (ltb p max_processes)
          (write_keeps t p _ k (λ e. absurd (ground arith))) k
    apply_keeps (inherit parent child) r =
        if_holds Kept (leb max_processes parent || leb max_processes child) k
          (write_keeps t child _ k (λ e. absurd (ground arith)))
    apply_keeps (clear p) r =
        if_holds Kept (ltb p max_processes)
          (write_keeps t p cleared k (λ e. (bit-zero i, bit-zero i))) k

  run_keeps : (cs : List Call) (t : Table) → any_regains pid cs ≡ false → Kept t → Kept (run cs t)
  unfolding run
  run_keeps [] t r k = k
  run_keeps (c ∷ cs) t r k =
      run_keeps cs (apply c t) (ground arith) (apply_keeps t k c (ground arith))

drop-Lacks :
    (t : Table) (pid cap i : ℕ)
    → AllSound t
    → pid < max_processes
    → i < 64
    → cap < 2 ^ 64
    → bit cap i ≡ true
    → Lacks i (entry (capability_drop t pid cap).0 pid)
unfolding capability_drop
drop-Lacks t pid cap i a lt il f b =
    let c = entry t pid in
    let gone : bit (bit_not 64 cap) i ≡ false = bit-bit_not 64 cap i il f ∙ ap not b in
    rw (lt→ltb pid max_processes lt) (
      rw
        (get_or-set_self t pid
          (record c {
            effective = bit_and c.effective (bit_not 64 cap);
            permitted = bit_and c.permitted (bit_not 64 cap);
          })
          cleared (omega (arith, a.size)))
        (
          also_masked_lacks (bit_not 64 cap) c.effective i gone,
          also_masked_lacks (bit_not 64 cap) c.permitted i gone,
        ))

get-Lacks : (t : Table) (pid i : ℕ) → Lacks i (entry t pid) → bit (capability_get t pid) i ≡ false
unfolding capability_get
get-Lacks t pid i l = if_holds (λ k. bit k i ≡ false) (ltb pid max_processes) l.0 (bit-zero i)

-- After `capability_drop`, a capability of the mask is not in effect whatever calls follow, as long as
-- none grants to the process or lets it inherit.
pub dropped_stays_dropped :
    (cs : List Call) (t : Table) (pid cap i : ℕ)
    → AllSound t
    → pid < max_processes
    → i < 64
    → cap < 2 ^ 64
    → bit cap i ≡ true
    → any_regains pid cs ≡ false
    → bit (capability_get (run cs (capability_drop t pid cap).0) pid) i ≡ false
dropped_stays_dropped cs t pid cap i a lt il f b r =
    get-Lacks (run cs (capability_drop t pid cap).0) pid i
      (run_keeps pid i cs (capability_drop t pid cap).0 r (drop-Lacks t pid cap i a lt il f b))
