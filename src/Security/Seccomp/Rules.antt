-- ===== src/Security/Seccomp/Rules.antt =====
-- The rules of a filter as a list that grows at its end and is searched from its start.
use zurich_os.Base.{
  ℕ, zero, suc, ◌+◌, ◌<◌, ◌≤◌, ◌≡◌, refl, ap, ◌∙◌, ◌≢◌, List, [], ◌∷◌, ◌++◌, ◌==◌, if◌then◌else◌,
  set, get_or-set_self, get_or-set_keeps, length, length-set, Option, none, some, pos, arith, take,
  drop, drop-cons, take-set, or_else,
}
use zurich_os.Security.Seccomp.{
  Rule, Filter, max_processes, max_rules, mode_filter, mode_strict, mode_disabled, ret_kill,
  ret_allow, no_rule, no_filter, Table, filter_of, push_rule, seccomp_add_rule, scan, seccomp_check,
}

pub record IsOk (f : Filter) : Type 0 where
  pub size : length f.rules ≡ max_rules
  pub count : f.rule_count ≤ max_rules

pub record AllOk (t : Table) : Type 0 where
  pub size : length t ≡ max_processes
  pub each : (pid : ℕ) → IsOk (filter_of t pid)

-- The rules in use, oldest first.
abbrev pub active : Filter → List Rule
active f = take f.rule_count f.rules

-- The action of the first rule for a syscall.
abbrev pub find_rule : List Rule → ℕ → Option ℕ
find_rule [] nr = none
find_rule (r ∷ rs) nr = if r.syscall_nr == nr then some r.action else find_rule rs nr

-- What a filter decides where no rule is found, and the whole decision.
abbrev pub default_action : ℕ → ℕ
default_action mode = if mode == mode_strict then ret_kill else ret_allow

abbrev pub decide : Filter → ℕ → ℕ
decide f nr =
    if f.mode == mode_disabled
    then ret_allow
    else (elim (find_rule (active f) nr) [ some act ↦ act | none ↦ default_action f.mode ])

find_rule-append :
    (rs ss : List Rule) (nr : ℕ)
    → find_rule (rs ++ ss) nr ≡ or_else (find_rule rs nr) (find_rule ss nr)
find_rule-append [] ss nr = refl
find_rule-append (r ∷ rs) ss nr = ground (arith, find_rule-append rs ss nr)

scan_finds :
    (rules : List Rule) (n i nr : ℕ)
    → i + n ≤ length rules
    → scan rules n i nr ≡ find_rule (take n (drop i rules)) nr
unfolding scan
scan_finds rules zero i nr h = refl
scan_finds rules (suc n) i nr h =
    rw (drop-cons rules i no_rule (omega arith), scan_finds rules n (i + 1) nr (omega arith)) refl

-- The loop of `seccomp_check` decides by the first active rule for the syscall.
pub check_decides :
    (t : Table) (pid nr : ℕ)
    → AllOk t
    → pid < max_processes
    → seccomp_check t pid nr ≡ decide (filter_of t pid) nr
unfolding seccomp_check
check_decides t pid nr a lt =
    ground (arith, a.each pid, scan_finds (filter_of t pid).rules (filter_of t pid).rule_count 0 nr)

pub active-push :
    (f : Filter) (nr act : ℕ)
    → f.rule_count < length f.rules
    → active (push_rule f nr act) ≡ active f ++ record { syscall_nr = nr; action = act } ∷ []
unfolding push_rule
active-push f nr act h =
    let e : f.rule_count + 1 ≡ suc f.rule_count = omega arith in
    ap (λ k. take k (set f.rules f.rule_count (record { syscall_nr = nr; action = act }))) e
    ∙ take-set f.rules f.rule_count _ h

pub push-IsOk :
    (f : Filter) (nr act : ℕ) → IsOk f → f.rule_count < max_rules → IsOk (push_rule f nr act)
unfolding push_rule
push-IsOk f nr act k h = record {
  size = length-set f.rules f.rule_count _ ∙ k.size;
  count = omega arith;
}

pub set-AllOk : (t : Table) (pid : ℕ) (f : Filter) → AllOk t → IsOk f → AllOk (set t pid f)
set-AllOk t pid f a k = record {
  size = length-set t pid f ∙ a.size;
  each = λ p. get_or-set_keeps IsOk t pid p f no_filter k (a.each p);
}

record Accepted (t : Table) (pid nr act : ℕ) : Type 0 where
  in_range : pid < max_processes
  filtering : (filter_of t pid).mode ≡ mode_filter
  room : (filter_of t pid).rule_count < max_rules
  written : (seccomp_add_rule t pid nr act).0 ≡ set t pid (push_rule (filter_of t pid) nr act)

add_rule-Accepted :
    (t : Table) (pid nr act : ℕ) → (seccomp_add_rule t pid nr act).1 ≡ pos 0 → Accepted t pid nr act
unfolding seccomp_add_rule
add_rule-Accepted t pid nr act e = ground arith

-- What a process's filter decides after another filter is written for it.
pub check_after_set :
    (t : Table) (pid nr : ℕ) (f : Filter)
    → AllOk t
    → IsOk f
    → pid < max_processes
    → seccomp_check (set t pid f) pid nr ≡ decide f nr
check_after_set t pid nr f a k lt =
    check_decides (set t pid f) pid nr (set-AllOk t pid f a k) lt
    ∙ ap (λ g. decide g nr) (get_or-set_self t pid f no_filter (omega (arith, a.size)))

decide-push :
    (f : Filter) (nr act other : ℕ)
    → f.mode ≡ mode_filter
    → f.rule_count < length f.rules
    → decide (push_rule f nr act) other ≡ (elim (find_rule (active f) other) [
      | some old ↦ old
      | none ↦ if nr == other then act else ret_allow
    ])
decide-push f nr act other m h = ground (
  arith,
  mode-push f nr act,
  ap (λ rs. find_rule rs other) (active-push f nr act h),
  find_rule-append (active f) (record { syscall_nr = nr; action = act } ∷ []) other,
)
  where
    mode-push : (f : Filter) (nr act : ℕ) → (push_rule f nr act).mode ≡ f.mode
    mode-push f nr act = unfold push_rule in refl

-- A rule that `seccomp_add_rule` accepts decides for its syscall where no earlier rule did, and changes
-- no other decision of the process.
pub add_rule_lem :
    (t : Table) (pid nr act other : ℕ)
    → AllOk t
    → (seccomp_add_rule t pid nr act).1 ≡ pos 0
    → seccomp_check (seccomp_add_rule t pid nr act).0 pid other
      ≡ (elim (find_rule (active (filter_of t pid)) other) [
        | some old ↦ old
        | none ↦ if nr == other then act else ret_allow
      ])
add_rule_lem t pid nr act other a e =
    let f = filter_of t pid in
    let k = add_rule-Accepted t pid nr act e in
    ap (λ s. seccomp_check s pid other) k.written
    ∙ check_after_set t pid other (push_rule f nr act) a (push-IsOk f nr act (a.each pid) k.room)
        k.in_range
    ∙ decide-push f nr act other k.filtering (omega (arith, k.room, (a.each pid).size))

-- A call of `seccomp_add_rule` that fails leaves every filter as it was.
pub add_rule_refused :
    (t : Table) (pid nr act : ℕ)
    → (seccomp_add_rule t pid nr act).1 ≢ pos 0
    → (seccomp_add_rule t pid nr act).0 ≡ t
unfolding seccomp_add_rule
add_rule_refused t pid nr act e = ground arith
