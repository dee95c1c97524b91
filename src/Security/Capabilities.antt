-- ===== src/Security/Capabilities.antt =====
-- kernel/security/capabilities.c: three 64-bit masks for each process. A function that writes the
-- table returns the new one beside its result; what it prints on the serial line is left out.
pub mod Sound
pub mod Drop
use zurich_os.Base.{
  ℕ, ◌-◌, ◌^◌, ◌||◌, Bool, false, List, [], ◌∷◌, ltb, leb, ◌==◌, if◌then◌else◌, get_or, set,
  replicate, bit_and, bit_or, ℤ, pos, neg,
}
use zurich_os.Base.Bits.{bit_not}

pub record Caps : Type 0 where
  pub effective : ℕ
  pub permitted : ℕ
  pub inheritable : ℕ

abbrev pub max_processes : ℕ
max_processes = 256

abbrev pub cap_all : ℕ
cap_all = 2 ^ 64 - 1

abbrev pub cleared : Caps
cleared = record { effective = 0; permitted = 0; inheritable = 0 }

abbrev pub full : Caps
full = record { effective = cap_all; permitted = cap_all; inheritable = cap_all }

abbrev pub Table : Type 0
Table = List Caps

-- The entry of a process; every use stands behind a test that `pid` is in range.
abbrev pub entry : Table → ℕ → Caps
entry t pid = get_or t pid cleared

unfoldable pub init : Table
init = set (set (replicate max_processes cleared) 0 full) 1 full

unfoldable pub capability_get : Table → ℕ → ℕ
capability_get t pid = if ltb pid max_processes then (entry t pid).effective else 0

unfoldable pub capability_set : Table → ℕ → ℕ → Table × ℤ
capability_set t pid caps =
    let c = entry t pid in
    if ltb pid max_processes
    then (set t pid (record c { effective = bit_and caps c.permitted }), pos 0)
    else (t, neg 1)

unfoldable pub capability_has : Table → ℕ → ℕ → Bool
capability_has t pid cap =
    if ltb pid max_processes then bit_and (entry t pid).effective cap == cap else false

-- `effective &= ~cap; permitted &= ~cap`
unfoldable pub capability_drop : Table → ℕ → ℕ → Table × ℤ
capability_drop t pid cap =
    let c = entry t pid in
    let keep = bit_not 64 cap in
    if ltb pid max_processes
    then (
      set t pid
          (record c { effective = bit_and c.effective keep; permitted = bit_and c.permitted keep }),
      pos 0,
    )
    else (t, neg 1)

unfoldable pub capability_grant : Table → ℕ → ℕ → Table × ℤ
capability_grant t pid cap =
    let c = entry t pid in
    if ltb pid max_processes
    then (
      set t pid
          (record c { permitted = bit_or c.permitted cap; effective = bit_or c.effective cap }),
      pos 0,
    )
    else (t, neg 1)

unfoldable pub capability_inherit : Table → ℕ → ℕ → Table
capability_inherit t parent child =
    let given = (entry t parent).inheritable in
    if leb max_processes parent || leb max_processes child
    then t
    else set t child (record { permitted = given; effective = given; inheritable = given })

unfoldable pub capability_clear : Table → ℕ → Table
capability_clear t pid = if ltb pid max_processes then set t pid cleared else t

unfoldable pub capability_check : Table → ℕ → ℕ → ℤ
unfolding capability_has
capability_check t pid required_cap = if capability_has t pid required_cap then pos 0 else neg 1

-- The calls that change the table, in the order in which the kernel makes them.
pub data Call : Type 0 where
  set_caps : ℕ → ℕ → Call
  drop : ℕ → ℕ → Call
  grant : ℕ → ℕ → Call
  inherit : ℕ → ℕ → Call
  clear : ℕ → Call

unfoldable pub apply : Call → Table → Table
unfolding capability_set capability_drop capability_grant capability_inherit capability_clear
apply (set_caps pid caps) t = (capability_set t pid caps).0
apply (drop pid cap) t = (capability_drop t pid cap).0
apply (grant pid cap) t = (capability_grant t pid cap).0
apply (inherit parent child) t = capability_inherit t parent child
apply (clear pid) t = capability_clear t pid

unfoldable pub run : List Call → Table → Table
run [] t = t
run (c ∷ cs) t = run cs (apply c t)
