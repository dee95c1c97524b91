-- ===== src/Security/Seccomp.antt =====
-- kernel/security/seccomp.c: a syscall filter for each process. What it prints is left out.
pub mod Strict
pub mod Rules
use zurich_os.Base.{
  ℕ, zero, suc, ◌+◌, Bool, List, [], ◌∷◌, ltb, leb, ◌==◌, if◌then◌else◌, get_or, set, replicate, ℤ,
  pos, negsuc, neg, Option, none, some, not,
}

pub record Rule : Type 0 where
  pub syscall_nr : ℕ
  pub action : ℕ

-- `rules` is the array of MAX_SECCOMP_RULES entries, of which `rule_count` are in use. `mode` is one
-- of the three constants, 0 in a zeroed filter.
pub record Filter : Type 0 where
  pub mode : ℕ
  pub rules : List Rule
  pub rule_count : ℕ

abbrev pub max_processes : ℕ
max_processes = 256

abbrev pub max_rules : ℕ
max_rules = 64

abbrev pub mode_disabled : ℕ
mode_disabled = 0

abbrev pub mode_strict : ℕ
mode_strict = 1

abbrev pub mode_filter : ℕ
mode_filter = 2

abbrev pub ret_kill : ℕ
ret_kill = 0

abbrev pub ret_allow : ℕ
ret_allow = 0x7fff0000

abbrev pub sys_exit : ℕ
sys_exit = 0

abbrev pub sys_read : ℕ
sys_read = 1

abbrev pub sys_write : ℕ
sys_write = 2

abbrev pub sys_sigreturn : ℕ
sys_sigreturn = 119

abbrev pub no_rule : Rule
no_rule = record { syscall_nr = 0; action = 0 }

abbrev pub no_filter : Filter
no_filter = record { mode = 0; rules = replicate max_rules no_rule; rule_count = 0 }

abbrev pub Table : Type 0
Table = List Filter

abbrev pub filter_of : Table → ℕ → Filter
filter_of t pid = get_or t pid no_filter

unfoldable pub init : Table
init = replicate max_processes no_filter

-- One rule written at `rule_count`, which then grows.
unfoldable pub push_rule : Filter → ℕ → ℕ → Filter
push_rule f nr act = record f {
  rules = set f.rules f.rule_count (record { syscall_nr = nr; action = act });
  rule_count = f.rule_count + 1;
}

unfoldable pub strict_filter : Filter → Filter
unfolding push_rule
strict_filter f =
    let f0 = record f { mode = mode_strict; rule_count = 0 } in
    let f1 = push_rule f0 sys_read ret_allow in
    let f2 = push_rule f1 sys_write ret_allow in
    let f3 = push_rule f2 sys_exit ret_allow in push_rule f3 sys_sigreturn ret_allow

-- The filter after a change of mode; `none` where the mode is none of the three.
unfoldable pub with_mode : Filter → ℤ → Option Filter
unfolding strict_filter
with_mode f (pos m) =
    if m == mode_strict
    then some (strict_filter f)
    else (if m == mode_filter
        then some (record f { mode = mode_filter })
        else (if m == mode_disabled
            then some (record f { mode = mode_disabled; rule_count = 0 })
            else none))
with_mode f (negsuc m) = none

-- The write at the end of `seccomp_set_mode`, or its `return -1`.
abbrev pub store : Table → ℕ → Option Filter → Table × ℤ
store t pid none = (t, neg 1)
store t pid (some f) = (set t pid f, pos 0)

unfoldable pub seccomp_set_mode : Table → ℕ → ℤ → Table × ℤ
unfolding with_mode
seccomp_set_mode t pid mode =
    if ltb pid max_processes then store t pid (with_mode (filter_of t pid) mode) else (t, neg 1)

unfoldable pub seccomp_add_rule : Table → ℕ → ℕ → ℕ → Table × ℤ
unfolding push_rule
seccomp_add_rule t pid nr act =
    let f = filter_of t pid in
    if ltb pid max_processes
    then (if f.mode == mode_filter
        then (if leb max_rules f.rule_count
            then (t, neg 2)
            else (set t pid (push_rule f nr act), pos 0))
        else (t, neg 1))
    else (t, neg 1)

-- `for (i = 0; i < rule_count; i++)`: `n` rounds are left, the next at `i`.
unfoldable pub scan : List Rule → ℕ → ℕ → ℕ → Option ℕ
scan rules zero i nr = none
scan rules (suc n) i nr =
    let rest = scan rules n (i + 1) nr in
    let r = get_or rules i no_rule in if r.syscall_nr == nr then some r.action else rest

unfoldable pub seccomp_check : Table → ℕ → ℕ → ℕ
unfolding scan
seccomp_check t pid nr =
    let f = filter_of t pid in
    if ltb pid max_processes
    then (if f.mode == mode_disabled then ret_allow else (elim (scan f.rules f.rule_count 0 nr) [
      | some act ↦ act
      | none ↦ if f.mode == mode_strict then ret_kill else ret_allow
    ]))
    else ret_allow

unfoldable pub seccomp_get_mode : Table → ℕ → ℕ
seccomp_get_mode t pid = if ltb pid max_processes then (filter_of t pid).mode else mode_disabled
