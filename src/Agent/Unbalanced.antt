-- ===== src/Agent/Unbalanced.antt =====
-- gtp.c, `if_goto` in `gtp_check_x_simple` and in `gtp_action_x`.
use kgtp.Base.{
  ℕ, suc, ◌+◌, ◌-◌, ◌<◌, ◌≡◌, Bool, true, false, Option, none, some, List, [], ◌∷◌, arith, length,
  lt→ltb, Bool-cases, inl, inr, get_elem?-none, ◌==◌, ◌%◌, ◌^◌,
}
use kgtp.Agent.Op.{DivOp, decode}
use kgtp.Agent.Word.{Shifts}
use kgtp.Agent.Host.{Host}
use kgtp.Agent.Machine.{stack_max, fetch_const}
use kgtp.Agent.Cases.{exec_const, exec_if_goto, exec_pop}
use kgtp.Agent.Exec.{crash, exec, overflows, after, at_code, run, unlock, action_x}
use kgtp.Agent.Fold.{fold_step}
use kgtp.Agent.Tsv.{Config, Check, Ret, zero_ret}
use kgtp.Agent.Round.{Simple, round, check_if_goto_op}
use kgtp.Agent.Simple.{
  check_x_simple, check_paths, walk, finish, on_path, next_path, on_round, on_code, after_fold,
  check_round, set_printk,
}

-- `const8 a; if_goto 5; pop; end`
abbrev pub unbalanced : ℕ → List ℕ
unbalanced a = 0x22 ∷ a ∷ 0x20 ∷ 0 ∷ 5 ∷ 0x29 ∷ 0x27 ∷ []

-- The result of the check, whether the type is still 'X', and the buffer.
abbrev pub verdict : Option (Ret × Simple) → Option (Ret × Bool × List ℕ)
verdict none = none
verdict (some (r, s)) = some (r, s.type_x, s.check.ebuf)

-- The check of `unbalanced a` for a tracepoint that does not print.
abbrev pub unbalanced_check : Check → ℕ → Check
unbalanced_check c a = record c {
  ebuf = unbalanced a;
  tpe = record (c.tpe) { have_printk = false };
}

unbalanced-accepted :
    (cfg : Config) (shifts : Shifts) (do_div : DivOp → ℕ → ℕ → ℕ) (c : Check) (a : ℕ)
    (space : List ℕ)
    → 1 < length space
    → verdict (
        check_x_simple
          (record cfg { kmalloc = λ n. true })
          shifts
          do_div
          2
          space
          (unbalanced_check c a))
      ≡ some (zero_ret, true, unbalanced a)
unfolding check_x_simple check_paths walk finish on_path next_path on_round on_code after_fold
    check_round set_printk round check_if_goto_op decode fold_step
unbalanced-accepted cfg shifts do_div c a space two = rw (lt→ltb 1 (length space) two)

unbalanced-crash :
    (h : Host) (lock printk : Bool) (s₀ : ℕ) (rest : List ℕ) (gts_run : Option ℕ) (w : h.World)
    (a : ℕ)
    → length (s₀ ∷ rest) ≡ stack_max
    → (action_x h
        (record { ebuf = unbalanced a; type_x = true; need_var_lock = lock; have_printk = printk })
        4
        (s₀ ∷ rest)
        gts_run
        w).0
      ≡ crash
unfolding action_x unlock run at_code after overflows exec exec_const exec_if_goto exec_pop
    fetch_const decode
unbalanced-crash h lock printk s₀ rest gts_run w a wide =
    let at_top = get_elem?-none rest (2 ^ 32 - 2) (omega arith) in
    elim (Bool-cases ((0 + a) % 2 ^ 64 == 0)) [
      | inl e ↦ rw (lt→ltb 0 (suc (length rest)) (omega arith), e) (rw at_top)
      | inr e ↦ rw (lt→ltb 0 (suc (length rest)) (omega arith), e) (rw at_top)
    ]

-- For every byte `a`: where allocations succeed, `gtp_check_x_simple` accepts the expression
-- `const8 a; if_goto 5; pop; end` with 0 and leaves it as it is, and `gtp_action_x` then reads
-- below its stack, whatever the host, the world, the flags and the stack of STACK_MAX cells: the
-- check does not count the value that `if_goto` takes.
pub if_goto-unbalanced :
    (h : Host) (cfg : Config) (c : Check) (a : ℕ) (space stack : List ℕ)
    → 1 < length space
    → length stack ≡ stack_max
    → (lock printk : Bool) (gts_run : Option ℕ) (w : h.World)
    → (verdict (
          check_x_simple
            (record cfg { kmalloc = λ n. true })
            h.shifts
            h.do_div
            2
            space
            (unbalanced_check c a))
        ≡ some (zero_ret, true, unbalanced a))
      × ((action_x h
            (record {
              ebuf = unbalanced a;
              type_x = true;
              need_var_lock = lock;
              have_printk = printk;
            })
            4
            stack
            gts_run
            w).0
          ≡ crash)
if_goto-unbalanced h cfg c a space [] two wide lock printk gts_run w = absurd (omega arith)
if_goto-unbalanced h cfg c a space (s₀ ∷ rest) two wide lock printk gts_run w = (
  unbalanced-accepted cfg h.shifts h.do_div c a space two,
  unbalanced-crash h lock printk s₀ rest gts_run w a wide,
)
