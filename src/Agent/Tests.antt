-- ===== src/Agent/Tests.antt =====
-- Concrete expressions, and the theorems of the agent expressions at inputs that meet their
-- hypotheses.
use kgtp.Base.{
  ℕ, ◌%◌, ◌/◌, ◌≡◌, ◌≢◌, refl, Bool, true, false, Option, none, some, List, [], ◌∷◌, arith,
  replicate, inr,
}
use kgtp.Agent.Op.{DivOp, decode, div_signed, div_unsigned, rem_signed}
use kgtp.Agent.Word.{Shifts, alu, extend_sign}
use kgtp.Agent.Host.{Host}
use kgtp.Agent.Machine.{fetch_const}
use kgtp.Agent.Cases.{exec_const, exec_bin, exec_end}
use kgtp.Agent.Exec.{
  div_crash, Code, Exit, done, crash, exec, overflows, after, at_code, run, unlock, action_x,
}
use kgtp.Agent.Tsv.{
  Config, Check, Entry, zero_ret, Var, normal, kprobe, var_find_num, var_array_find_num,
}
use kgtp.Agent.VarAdd.{check_var_add, var_pc_checked_find, finish_var, after_add, add_index}
use kgtp.Agent.Getv.{check_getv, getv_found, getv_type}
use kgtp.Agent.Fold.{fold_step}
use kgtp.Agent.Round.{Simple, round, check_goto_op}
use kgtp.Agent.Simple.{
  check_x_simple, check_paths, walk, start, finish, on_path, next_path, on_round, on_code,
  after_fold, check_round, set_printk, ended, no_fuel,
}
use kgtp.Agent.Safety.{EndsSafely, check_x_simple-IsSafe}
use kgtp.Agent.Kept.{Kept, check_getv-Kept, check_setv-Kept}
use kgtp.Agent.Setv.{check_setv}
use kgtp.Agent.Terminates.{walk_terminates}
use kgtp.Agent.DivFault.{by_register, by_register_check, division-faults}
use kgtp.Agent.Unbalanced.{unbalanced, unbalanced_check, verdict, if_goto-unbalanced}
use kgtp.Agent.KnownSum.{sum_text, known_value, result_value, known-sum_differs}
use kgtp.Agent.LoopRefuses.{
  IsRefused, repeated, check_x_loop-refuses_bin, check_x_loop-refuses_setv,
}
use kgtp.Agent.Loop.{check_x_loop}

abbrev shifts : Shifts
shifts = record { wide = λ op a n. 0; int_one = λ n. 0 }

abbrev quotient : DivOp → ℕ → ℕ → ℕ
quotient op a b = elim op [ div_signed ↦ a / b | div_unsigned ↦ a / b | _ ↦ a % b ]

-- Every call succeeds, and every value that is read is 7.
abbrev host : Host
host = record {
  World = Unit {0};
  shifts = shifts;
  do_div = quotient;
  read_memory = λ w n a. some 7;
  reg_read = λ w n. (tt, some 7);
  get_val = λ w n. (tt, some 7);
  set_val = λ w n v. (tt, true);
  memory_read = λ w a n. (tt, true);
  printk = λ w a n. (tt, true);
  collect_var = λ w n. (tt, true);
}

abbrev counter : Var
counter = record { addr = 0x1000; num = 5; var_type = normal }

abbrev config : Config
config = record {
  var_list = counter ∷ [];
  var_array = counter ∷ [];
  bt_size = 512;
  kmalloc = λ n. true;
  step = false;
}

abbrev entry : Entry
entry = record {
  current_task = false;
  self_trace = false;
  have_printk = false;
  is_kretprobe = false;
  entry_type = kprobe;
  watch_type = 0;
  watch_size = 0;
  pid = 1;
  action_list = [];
  step_action_list = [];
}

-- `const8 3; getv 5; add; goto 10; end; end`
abbrev expression : List ℕ
expression = 0x22 ∷ 3 ∷ 0x2c ∷ 0 ∷ 5 ∷ 0x02 ∷ 0x21 ∷ 0 ∷ 10 ∷ 0x27 ∷ 0x27 ∷ []

-- The same with the index of variable 5.
abbrev indexed : List ℕ
indexed = 0x22 ∷ 3 ∷ 0x2c ∷ 0 ∷ 0 ∷ 0x02 ∷ 0x21 ∷ 0 ∷ 10 ∷ 0x27 ∷ 0x27 ∷ []

abbrev check : Check
check = record {
  tpe = entry;
  ebuf = expression;
  need_var_lock = false;
  var_rw_flags = [];
  var_pc_checked = [];
  access_cooked_clock = false;
  access_cooked_rdtsc = false;
  have_watch_tracepoint = false;
  kmallocs = 0;
}

abbrev space : List ℕ
space = 0 ∷ 0 ∷ 0 ∷ []

-- The end of the only path.
abbrev path_end : Simple
path_end = record (start check space) {
  check = record check {
    ebuf = indexed;
    var_rw_flags = record { num = 5; reads = true; writes = false } ∷ [];
    var_pc_checked = 5 ∷ [];
    kmallocs = 2;
  };
  pc = 11;
  sp = 1;
  sp_max = 2;
  fold = record { live = false; space = 0 ∷ 0 ∷ 0 ∷ []; top = 3 };
}

abbrev checked : Simple
checked = record path_end { check = record check { ebuf = indexed; kmallocs = 2 } }

walk-expression : walk config shifts quotient 12 (start check space) ≡ ended path_end
unfolding walk on_code check_round after_fold on_round round check_goto_op decode fold_step
    check_getv getv_found getv_type var_find_num var_array_find_num check_var_add
    var_pc_checked_find finish_var after_add add_index
walk-expression = refl

checked-expression : check_x_simple config shifts quotient 1 space check ≡ some (zero_ret, checked)
unfolding walk-expression walk on_code check_round after_fold on_round round check_goto_op decode
    fold_step check_getv getv_found getv_type var_find_num var_array_find_num check_var_add
    var_pc_checked_find finish_var after_add add_index check_x_simple check_paths finish on_path
    next_path set_printk
checked-expression = refl

-- 3 + 4 through the interpreter: `const8 3; const8 4; add; end`.
sum_code : Code
sum_code = record {
  ebuf = 0x22 ∷ 3 ∷ 0x22 ∷ 4 ∷ 0x02 ∷ 0x27 ∷ [];
  type_x = true;
  need_var_lock = true;
  have_printk = false;
}

run_of : Exit (Unit {0}) × Bool → Option ℕ × Bool
run_of (done m, held) = (m.run, held)
run_of (_, held) = (none, held)

sum-run : run_of (action_x host sum_code 9 (replicate 32 0) (some 0) tt) ≡ (some 7, false)
unfolding run_of sum_code action_x unlock run at_code after overflows exec exec_const exec_bin
    exec_end fetch_const decode alu
sum-run = refl

sign_extended : extend_sign shifts 8 0xff ≡ 0xffff_ffff_ffff_ffff
unfolding extend_sign
sign_extended = refl

check_x_simple-IsSafe_example : EndsSafely (
    action_x host
      (record { ebuf = indexed; type_x = true; need_var_lock = true; have_printk = false })
      12
      (replicate 32 0)
      (some 1)
      tt)
check_x_simple-IsSafe_example =
    check_x_simple-IsSafe host config 0 space check path_end checked (omega arith) walk-expression
      refl refl checked-expression (cc) refl true false (replicate 32 0) refl (some 1) tt

walk_terminates_example : walk config shifts quotient 12 (start check space) ≢ no_fuel
walk_terminates_example =
    walk_terminates config shifts quotient 12 (start check space) (omega arith)

if_goto-unbalanced_example :
    (verdict (
        check_x_simple
          (record config { kmalloc = λ n. true })
          shifts
          quotient
          2
          space
          (unbalanced_check check 9))
      ≡ some (zero_ret, true, unbalanced 9))
    × ((action_x host
          (record {
            ebuf = unbalanced 9;
            type_x = true;
            need_var_lock = false;
            have_printk = false;
          })
          4
          (replicate 32 0)
          none
          tt).0
        ≡ crash)
if_goto-unbalanced_example =
    if_goto-unbalanced host config check 9 space (replicate 32 0) (omega arith) refl false false
      none tt

check_x_loop-refuses_bin_example :
    IsRefused
      (check_x_loop config 5 (record check { ebuf = repeated (inr rem_signed) (0x27 ∷ []) }))
check_x_loop-refuses_bin_example =
    check_x_loop-refuses_bin config 2 check (inr rem_signed) (0x27 ∷ [])

check_x_loop-refuses_setv_example :
    IsRefused (check_x_loop config 4 (record check { ebuf = 0x2d ∷ 0 ∷ 5 ∷ 0x27 ∷ [] }))
unfolding var_find_num var_array_find_num
check_x_loop-refuses_setv_example =
    check_x_loop-refuses_setv config 2 check 0 5 0 (0x27 ∷ []) counter refl refl refl (omega arith)

check_getv-Kept_example : Kept 3 expression (check_getv config check 3).1.ebuf
check_getv-Kept_example = check_getv-Kept config check 3

check_setv-Kept_example : Kept 3 expression (check_setv config check 3 false (some 1)).1.ebuf
check_setv-Kept_example = check_setv-Kept config check 3 false (some 1)

known-sum_differs_example :
    (known_value config
        (walk config shifts quotient 4 (start (record check { ebuf = sum_text 3 4 }) space))
      ≡ some 4)
    × (result_value (
          action_x host
            (record {
              ebuf = sum_text 3 4;
              type_x = true;
              need_var_lock = true;
              have_printk = false;
            })
            4
            (0 ∷ 0 ∷ [])
            (some 0)
            tt)
        ≡ some 7)
known-sum_differs_example =
    known-sum_differs host config check 3 4 0 0 0 0 0 [] [] (omega arith) (omega arith) true false
      tt

-- A host whose registers are 2 ^ 32
abbrev wide_host : Host
wide_host = record host { reg_read = λ w n. (tt, some 4294967296) }

division-faults_example :
    (verdict (
        check_x_simple config shifts quotient 1 space (by_register_check check 1 0 16 div_unsigned))
      ≡ some (zero_ret, true, by_register 1 0 16 div_unsigned))
    × (action_x wide_host
          (record {
            ebuf = by_register 1 0 16 div_unsigned;
            type_x = true;
            need_var_lock = true;
            have_printk = false;
          })
          3
          (replicate 32 0)
          none
          tt
        ≡ (div_crash 4294967296, true))
division-faults_example =
    division-faults wide_host config check div_unsigned 1 0 16 4294967296 space (replicate 32 0)
      (omega arith) refl (omega arith) refl true false none tt tt refl
