-- ===== src/Security/Examples.antt =====
-- The theorems on capabilities.c and seccomp.c at concrete tables.
use zurich_os.Base.{ℕ, ◌≡◌, ◌↔◌, refl, true, false, [], ◌∷◌, pos, if◌then◌else◌, ◌<◌, arith}
use zurich_os.Base.Bits.{bit}
use zurich_os.Security.Capabilities.{
  set_caps, drop, inherit, grant, apply, capability_has, capability_get, capability_drop, run,
  entry,
}
use zurich_os.Security.Capabilities.Sound.{init-AllSound, run-within, capability_has_iff}
use zurich_os.Security.Capabilities.Drop.{dropped_stays_dropped}
use zurich_os.Security.Seccomp.{
  Filter, filter_of, mode_strict, mode_filter, ret_allow, ret_kill, seccomp_check, seccomp_set_mode,
  seccomp_add_rule, with_mode, Table,
}
use zurich_os.Security.Seccomp.Rules.{decide, check_decides}
use zurich_os.Security.Seccomp.Strict.{in_strict_set, strict_mode_lem, set_mode-AllOk}
use zurich_os.Security.Capabilities
use zurich_os.Security.Seccomp
use zurich_os.Security.Seccomp.Strict

dropped_stays_dropped_example :
    bit
      (capability_get
        (run (drop 0 1 ∷ set_caps 1 7 ∷ inherit 1 5 ∷ []) (capability_drop Capabilities.init 1 3).0)
        1)
      0
    ≡ false
dropped_stays_dropped_example =
    dropped_stays_dropped (drop 0 1 ∷ set_caps 1 7 ∷ inherit 1 5 ∷ []) Capabilities.init 1 3 0
      init-AllSound (omega arith) (omega arith) (omega arith) refl refl

in_effect :
    bit (entry (run (drop 1 1 ∷ grant 7 6 ∷ set_caps 7 2 ∷ []) Capabilities.init) 7).effective 1
    ≡ true
unfolding run apply Capabilities.init
in_effect = refl

run-within_example :
    bit (entry (run (drop 1 1 ∷ grant 7 6 ∷ set_caps 7 2 ∷ []) Capabilities.init) 7).permitted 1
    ≡ true
run-within_example =
    run-within (drop 1 1 ∷ grant 7 6 ∷ set_caps 7 2 ∷ []) 7 1
      (omega arith, (omega arith, (omega arith, tt))) in_effect

capability_has_iff_example :
    (capability_has Capabilities.init 1 5 ≡ true)
    ↔ ((i : ℕ) → i < 64 → bit 5 i ≡ true → bit (entry Capabilities.init 1).effective i ≡ true)
capability_has_iff_example =
    capability_has_iff Capabilities.init 1 5 init-AllSound (omega arith) (omega arith)

strict_mode_lem_example :
    seccomp_check (seccomp_set_mode Seccomp.init 3 (pos mode_strict)).0 3 42
    ≡ (if in_strict_set 42 then ret_allow else ret_kill)
strict_mode_lem_example = strict_mode_lem Seccomp.init 3 42 Strict.init-AllOk (omega arith)

check_decides_example :
    seccomp_check (seccomp_set_mode Seccomp.init 3 (pos mode_strict)).0 3 1
    ≡ decide (filter_of (seccomp_set_mode Seccomp.init 3 (pos mode_strict)).0 3) 1
check_decides_example =
    check_decides (seccomp_set_mode Seccomp.init 3 (pos mode_strict)).0 3 1
      (set_mode-AllOk Seccomp.init 3 (pos mode_strict) Strict.init-AllOk) (omega arith)

-- Process 5 in filter mode.
abbrev filtered : Table
filtered = (seccomp_set_mode Seccomp.init 5 (pos mode_filter)).0

accepted : (seccomp_add_rule filtered 5 9 ret_kill).1 ≡ pos 0
unfolding seccomp_add_rule seccomp_set_mode Seccomp.init with_mode
accepted = refl
