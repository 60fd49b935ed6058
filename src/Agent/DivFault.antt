-- ===== src/Agent/DivFault.antt =====
-- gtp.c, a division in `gtp_check_x_simple` and in `gtp_action_x`, by a number of more than 32 bits.
use kgtp.Base.{
  ℕ, suc, ◌+◌, ◌*◌, ◌%◌, ◌^◌, ◌<◌, ◌≡◌, ◌≢◌, ◌==◌, Bool, true, false, Option, some, List, [], ◌∷◌,
  arith, length, lt→ltb, ltb, refl,
}
use kgtp.Agent.Op.{DivOp, decode, div_signed, div_unsigned, rem_signed, rem_unsigned}
use kgtp.Agent.Word.{Shifts}
use kgtp.Agent.Host.{Host}
use kgtp.Agent.Machine.{stack_max, fetch_const}
use kgtp.Agent.Cases.{exec_const, exec_reg, exec_div}
use kgtp.Agent.Exec.{div_crash, exec, overflows, after, at_code, run, unlock, action_x}
use kgtp.Agent.Fold.{fold_step}
use kgtp.Agent.Tsv.{Config, Check, zero_ret}
use kgtp.Agent.Round.{round}
use kgtp.Agent.Simple.{
  check_x_simple, check_paths, walk, finish, on_path, next_path, on_round, on_code, after_fold,
  check_round, set_printk,
}
use kgtp.Agent.LoopRefuses.{div_code}
use kgtp.Agent.Unbalanced.{verdict}

-- `const8 a; reg hi lo; op; end`
abbrev pub by_register : ℕ → ℕ → ℕ → DivOp → List ℕ
by_register a hi lo op = 0x22 ∷ a ∷ 0x26 ∷ hi ∷ lo ∷ div_code op ∷ 0x27 ∷ []

-- The check of `by_register` for a tracepoint that does not print.
abbrev pub by_register_check : Check → ℕ → ℕ → ℕ → DivOp → Check
by_register_check c a hi lo op = record c {
  ebuf = by_register a hi lo op;
  tpe = record (c.tpe) { have_printk = false };
}

by_register-accepted :
    (cfg : Config) (shifts : Shifts) (do_div : DivOp → ℕ → ℕ → ℕ) (c : Check) (a hi lo : ℕ)
    (op : DivOp) (space : List ℕ)
    → 1 < length space
    → verdict (check_x_simple cfg shifts do_div 1 space (by_register_check c a hi lo op))
      ≡ some (zero_ret, true, by_register a hi lo op)
unfolding check_x_simple check_paths walk finish on_path next_path on_round on_code after_fold
    check_round set_printk round decode fold_step div_code
by_register-accepted cfg shifts do_div c a hi lo div_signed space two =
    rw (lt→ltb 1 (length space) two)
by_register-accepted cfg shifts do_div c a hi lo div_unsigned space two =
    rw (lt→ltb 1 (length space) two)
by_register-accepted cfg shifts do_div c a hi lo rem_signed space two =
    rw (lt→ltb 1 (length space) two)
by_register-accepted cfg shifts do_div c a hi lo rem_unsigned space two =
    rw (lt→ltb 1 (length space) two)

module _ (h : Host) (lock printk : Bool) (s₀ s₁ : ℕ) (rest : List ℕ) (gts_run : Option ℕ)
    (w w' : h.World) (a hi lo v : ℕ) where
  room₀ : ltb 0 (suc (suc (length rest))) ≡ true
  room₀ = lt→ltb 0 (suc (suc (length rest))) (omega arith)

  room₁ : ltb 1 (suc (suc (length rest))) ≡ true
  room₁ = lt→ltb 1 (suc (suc (length rest))) (omega arith)

  by_register-faults :
      (op : DivOp)
      → h.reg_read w (hi * 256 + lo) ≡ (w', some v)
      → (v == 0) ≡ false
      → (v % 2 ^ 32 == 0) ≡ true
      → action_x h
          (record {
            ebuf = by_register a hi lo op;
            type_x = true;
            need_var_lock = lock;
            have_printk = printk;
          })
          3
          (s₀ ∷ s₁ ∷ rest)
          gts_run
          w
        ≡ (div_crash v, lock)
  unfolding action_x unlock run at_code after overflows exec exec_const exec_reg exec_div
      fetch_const decode div_code
  by_register-faults div_signed read some_v low =
      rw (room₀, room₁) (rw read (rw (some_v, low) refl))
  by_register-faults div_unsigned read some_v low =
      rw (room₀, room₁) (rw read (rw (some_v, low) refl))
  by_register-faults rem_signed read some_v low =
      rw (room₀, room₁) (rw read (rw (some_v, low) refl))
  by_register-faults rem_unsigned read some_v low =
      rw (room₀, room₁) (rw read (rw (some_v, low) refl))

-- For every division, every byte `a` and every register: `gtp_check_x_simple` accepts the expression
-- `const8 a; reg; op; end` and leaves it as it is. On a host where the register is a number, not 0,
-- whose low 32 bits are 0, `gtp_action_x` then stops in the division, by the fault of `do_div`, and
-- where it has taken `gtp_var_lock`, the lock stays held; whatever the world, the flags and the stack
-- of STACK_MAX cells.
pub division-faults :
    (h : Host) (cfg : Config) (c : Check) (op : DivOp) (a hi lo v : ℕ) (space stack : List ℕ)
    → 1 < length space
    → length stack ≡ stack_max
    → v ≢ 0
    → v % 2 ^ 32 ≡ 0
    → (lock printk : Bool) (gts_run : Option ℕ) (w w' : h.World)
    → h.reg_read w (hi * 256 + lo) ≡ (w', some v)
    → (verdict (check_x_simple cfg h.shifts h.do_div 1 space (by_register_check c a hi lo op))
        ≡ some (zero_ret, true, by_register a hi lo op))
      × (action_x h
            (record {
              ebuf = by_register a hi lo op;
              type_x = true;
              need_var_lock = lock;
              have_printk = printk;
            })
            3
            stack
            gts_run
            w
          ≡ (div_crash v, lock))
division-faults h cfg c op a hi lo v space [] two wide some_v low lock printk gts_run w w' read =
    absurd (omega arith)
division-faults h cfg c op a hi lo v space (s₀ ∷ []) two wide some_v low lock printk gts_run w w'
      read =
    absurd (omega arith)
division-faults h cfg c op a hi lo v space (s₀ ∷ s₁ ∷ rest) two wide some_v low lock printk gts_run
      w w' read =
    (
      by_register-accepted cfg h.shifts h.do_div c a hi lo op space two,
      by_register-faults h lock printk s₀ s₁ rest gts_run w w' a hi lo v op read (ground arith)
          (ground (arith, low)),
    )
