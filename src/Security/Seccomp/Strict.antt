-- ===== src/Security/Seccomp/Strict.antt =====
-- Strict mode: what it allows, and the invariant over all calls.
use zurich_os.Base.{
  ℕ, ◌<◌, ◌≤◌, ◌≡◌, refl, ap, ◌∙◌, ◌||◌, Bool, List, [], ◌∷◌, ltb, ◌==◌, if◌then◌else◌, set, length,
  take, length-set, Option, none, some, ℤ, pos, negsuc, arith, lt→ltb, get_or-replicate,
  length-replicate, if_holds, if_cases, leb,
}
use zurich_os.Security.Seccomp.{
  Rule, Filter, max_processes, max_rules, mode_filter, mode_strict, ret_kill, ret_allow, no_filter,
  Table, filter_of, init, strict_filter, with_mode, store, seccomp_set_mode, seccomp_add_rule,
  seccomp_check,
}
use zurich_os.Security.Seccomp.Rules.{
  IsOk, AllOk, find_rule, decide, push-IsOk, set-AllOk, check_after_set,
}

-- The syscalls that strict mode lets through: exit, read, write and sigreturn.
abbrev pub in_strict_set : ℕ → Bool
in_strict_set nr = 1 == nr || 2 == nr || 0 == nr || 119 == nr

abbrev allow : ℕ → Rule
allow nr = record { syscall_nr = nr; action = ret_allow }

strict_writes :
    (rules : List Rule)
    → 4 ≤ length rules
    → take 4 (set (set (set (set rules 0 (allow 1)) 1 (allow 2)) 2 (allow 0)) 3 (allow 119))
      ≡ allow 1 ∷ allow 2 ∷ allow 0 ∷ allow 119 ∷ []
strict_writes (a ∷ b ∷ c ∷ d ∷ rest) h = refl
strict_writes [] h = absurd (omega arith)
strict_writes (a ∷ []) h = absurd (omega arith)
strict_writes (a ∷ b ∷ []) h = absurd (omega arith)
strict_writes (a ∷ b ∷ c ∷ []) h = absurd (omega arith)

decide_strict :
    (f : Filter) (nr : ℕ)
    → IsOk f
    → decide (strict_filter f) nr ≡ (if in_strict_set nr then ret_allow else ret_kill)
unfolding strict_filter
decide_strict f nr k =
    ap (λ rs. elim (find_rule rs nr) [ some act ↦ act | none ↦ ret_kill ])
      (strict_writes f.rules (omega (arith, k.size)))
    ∙ ground arith

strict-IsOk : (f : Filter) → IsOk f → IsOk (strict_filter f)
unfolding strict_filter
strict-IsOk f k = record {
  size = omega (
    arith,
    k.size,
    length-set f.rules 0 (allow 1),
    length-set (set f.rules 0 (allow 1)) 1 (allow 2),
    length-set (set (set f.rules 0 (allow 1)) 1 (allow 2)) 2 (allow 0),
    length-set (set (set (set f.rules 0 (allow 1)) 1 (allow 2)) 2 (allow 0)) 3 (allow 119),
  );
  count = omega arith;
}

strict_writes_table :
    (t : Table) (pid : ℕ)
    → pid < max_processes
    → (seccomp_set_mode t pid (pos mode_strict)).0 ≡ set t pid (strict_filter (filter_of t pid))
unfolding seccomp_set_mode
strict_writes_table t pid lt = rw (lt→ltb pid max_processes lt)

-- Once `seccomp_set_mode` has made a process strict, `seccomp_check` allows it read, write, exit and
-- sigreturn, and answers kill for every other syscall, whatever rules it had before.
pub strict_mode_lem :
    (t : Table) (pid nr : ℕ)
    → AllOk t
    → pid < max_processes
    → seccomp_check (seccomp_set_mode t pid (pos mode_strict)).0 pid nr
      ≡ (if in_strict_set nr then ret_allow else ret_kill)
strict_mode_lem t pid nr a lt =
    ap (λ s. seccomp_check s pid nr) (strict_writes_table t pid lt)
    ∙ check_after_set t pid nr (strict_filter f) a (strict-IsOk f (a.each pid)) lt
    ∙ decide_strict f nr (a.each pid)
  where
    f : Filter
    f = filter_of t pid

-- After `seccomp_init` every filter is empty and within its array.
pub init-AllOk : AllOk init
unfolding init
init-AllOk = record {
  size = length-replicate max_processes no_filter;
  each = λ pid. rw (get_or-replicate max_processes pid no_filter) (omega arith);
}

with_mode-IsOk : (f : Filter) (m : ℤ) {g : Filter} → IsOk f → with_mode f m ≡ some g → IsOk g
unfolding with_mode
with_mode-IsOk f (pos m) k e = ground (arith, strict-IsOk f k)
with_mode-IsOk f (negsuc m) k e = cc

store-AllOk :
    (t : Table) (pid : ℕ) (o : Option Filter)
    → AllOk t
    → ((g : Filter) → o ≡ some g → IsOk g)
    → AllOk (store t pid o).0
store-AllOk t pid none a h = a
store-AllOk t pid (some g) a h = set-AllOk t pid g a (h g refl)

-- Every change of mode keeps the filters within their arrays.
pub set_mode-AllOk : (t : Table) (pid : ℕ) (m : ℤ) → AllOk t → AllOk (seccomp_set_mode t pid m).0
unfolding seccomp_set_mode
set_mode-AllOk t pid m a =
    if_holds (λ (r : Table × ℤ). AllOk r.0) (ltb pid max_processes)
      (store-AllOk t pid (with_mode (filter_of t pid) m) a
        (λ g e. with_mode-IsOk (filter_of t pid) m (a.each pid) e))
      a

-- Every rule added keeps the filters within their arrays.
pub add_rule-AllOk :
    (t : Table) (pid nr act : ℕ) → AllOk t → AllOk (seccomp_add_rule t pid nr act).0
unfolding seccomp_add_rule
add_rule-AllOk t pid nr act a =
    let f = filter_of t pid in
    if_holds (λ (r : Table × ℤ). AllOk r.0) (ltb pid max_processes)
      (if_holds (λ (r : Table × ℤ). AllOk r.0) (f.mode == mode_filter)
        (if_cases (λ (r : Table × ℤ). AllOk r.0) (leb max_rules f.rule_count) (λ _. a)
          (λ room. set-AllOk t pid _ a (push-IsOk f nr act (a.each pid) (ground (arith, room)))))
        a)
      a
