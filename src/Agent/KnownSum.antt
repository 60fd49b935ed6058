-- ===== src/Agent/KnownSum.antt =====
-- The known value of `gtp_check_x_simple` and the value of `gtp_action_x`, for a sum of constants.
use kgtp.Base.{
  ℕ, suc, ◌+◌, ◌<◌, ◌≡◌, ap, Bool, true, Option, none, some, List, [], ◌∷◌, arith, length, lt→ltb,
}
use kgtp.Agent.Op.{DivOp, decode}
use kgtp.Agent.Word.{Shifts, alu}
use kgtp.Agent.Host.{Host}
use kgtp.Agent.Machine.{fetch_const}
use kgtp.Agent.Cases.{exec_const, exec_bin, exec_end}
use kgtp.Agent.Exec.{Exit, done, exec, overflows, after, at_code, run, unlock, action_x}
use kgtp.Agent.Fold.{fold_step}
use kgtp.Agent.Tsv.{Config, Check}
use kgtp.Agent.Round.{round, known}
use kgtp.Agent.Simple.{PathEnd, ended, walk, start, on_round, on_code, after_fold, check_round}

-- `const8 a; const8 b; add; end`
abbrev pub sum_text : ℕ → ℕ → List ℕ
sum_text a b = 0x22 ∷ a ∷ 0x22 ∷ b ∷ 0x02 ∷ 0x27 ∷ []

-- The value that the check takes for known at the end of a path.
abbrev pub known_value : Config → PathEnd → Option ℕ
known_value cfg (ended t) = known cfg t.fold
known_value cfg _ = none

-- The value that the interpreter leaves to the condition of the tracepoint.
abbrev pub result_value : {W : Type 0} → Exit W × Bool → Option ℕ
result_value (done m, held) = m.run
result_value _ = none

known-sum :
    (cfg : Config) (shifts : Shifts) (do_div : DivOp → ℕ → ℕ → ℕ) (c : Check) (a b s₀ s₁ s₂ : ℕ)
    (rest : List ℕ)
    → b < 256
    → known_value cfg
        (walk cfg shifts do_div 4 (start (record c { ebuf = sum_text a b }) (s₀ ∷ s₁ ∷ s₂ ∷ rest)))
      ≡ some b
unfolding walk on_round on_code after_fold check_round round decode fold_step alu
known-sum cfg shifts do_div c a b s₀ s₁ s₂ rest small =
    let n = suc (suc (suc (length rest))) in
    rw (lt→ltb 1 n (omega arith), lt→ltb 2 n (omega arith)) (ap some (omega arith))

result-sum :
    (h : Host) (lock printk : Bool) (s₀ s₁ : ℕ) (rest : List ℕ) (w : h.World) (a b : ℕ)
    → a < 256
    → b < 256
    → result_value (
        action_x h
          (record {
            ebuf = sum_text a b;
            type_x = true;
            need_var_lock = lock;
            have_printk = printk;
          })
          4
          (s₀ ∷ s₁ ∷ rest)
          (some 0)
          w)
      ≡ some (a + b)
unfolding action_x unlock run at_code after overflows exec exec_const exec_bin exec_end fetch_const
    decode alu
result-sum h lock printk s₀ s₁ rest w a b la lb =
    let n = suc (suc (length rest)) in
    rw (lt→ltb 0 n (omega arith), lt→ltb 1 n (omega arith)) (ap some (omega arith))

-- For all bytes `a` and `b`, at the end of `const8 a; const8 b; add; end` the value that
-- `gtp_check_x_simple` takes for known is `b`, on whatever the kernel's stack holds, while
-- `gtp_action_x` leaves `a + b`, whatever the host, the world, the stack and the flags.
pub known-sum_differs :
    (h : Host) (cfg : Config) (c : Check) (a b k₀ k₁ k₂ s₀ s₁ : ℕ) (space stack : List ℕ)
    → a < 256
    → b < 256
    → (lock printk : Bool) (w : h.World)
    → (known_value cfg (
          walk cfg h.shifts h.do_div 4
            (start (record c { ebuf = sum_text a b }) (k₀ ∷ k₁ ∷ k₂ ∷ space)))
        ≡ some b)
      × (result_value (
            action_x h
              (record {
                ebuf = sum_text a b;
                type_x = true;
                need_var_lock = lock;
                have_printk = printk;
              })
              4
              (s₀ ∷ s₁ ∷ stack)
              (some 0)
              w)
          ≡ some (a + b))
known-sum_differs h cfg c a b k₀ k₁ k₂ s₀ s₁ space stack la lb lock printk w = (
  known-sum cfg h.shifts h.do_div c a b k₀ k₁ k₂ space lb,
  result-sum h lock printk s₀ s₁ stack w a b la lb,
)
