-- ===== src/Agent/Safety.antt =====
-- gtp.c, `gtp_check_x_simple` and `gtp_action_x` together.
use kgtp.Base.{
  ℕ, suc, ◌%◌, ◌^◌, ◌≤◌, ◌<◌, ◌≡◌, ◌≢◌, refl, Bool, true, false, Option, some, List, [], arith,
  length, ap, ◌∙◌,
}
use kgtp.Agent.Op.{DivOp}
use kgtp.Agent.Word.{Shifts}
use kgtp.Agent.Host.{Host}
use kgtp.Agent.Machine.{stack_max}
use kgtp.Agent.Exec.{Code, Exit, done, failed, crash, div_crash, no_fuel, unlock, action_x}
use kgtp.Agent.Tsv.{Config, Check, Ret, einval}
use kgtp.Agent.Round.{Simple}
use kgtp.Agent.Simple.{
  PathEnd, ended, next_path, on_path, walk, check_paths, set_printk, start, finish, check_x_simple,
}
use kgtp.Agent.WalkRoute.{walk-Found}
use kgtp.Agent.Route.{Route, IsSafe, run-Route}

-- `gtp_action_x` ends without an access out of bounds, and leaves `gtp_var_lock` free; or it stops at
-- a division by a number, not 0, whose low 32 bits are 0.
abbrev pub EndsSafely : {W : Type 0} → Exit W × Bool → Type 0
EndsSafely (div_crash b, held) = (b ≢ 0) × (b % 2 ^ 32 ≡ 0)
EndsSafely (e, held) = IsSafe e × (held ≡ false)

module _ (h : Host) (c : Code) where
  unlock-EndsSafely : (e : Exit h.World) → IsSafe e → EndsSafely (unlock h c e)
  unfolding unlock
  unlock-EndsSafely (done m) s = (tt, refl)
  unlock-EndsSafely (failed r m) s = (s, refl)
  unlock-EndsSafely crash s = absurd s
  unlock-EndsSafely (div_crash b) s = s
  unlock-EndsSafely no_fuel s = absurd s

  action_x-Route :
      Route c.ebuf 0 0
      → c.type_x ≡ true
      → (fuel : ℕ) → length c.ebuf < fuel
      → (stack : List ℕ) → length stack ≡ stack_max
      → (gts_run : Option ℕ) (w : h.World) → EndsSafely (action_x h c fuel stack gts_run w)
  unfolding action_x
  action_x-Route r x fuel enough stack wide gts_run w =
      unlock-EndsSafely _ (run-Route h c r fuel _ refl refl (omega arith) wide x (omega arith))

accepted_path :
    (again : Simple → PathEnd) (t : Simple) {r : Ret} {s : Simple}
    → t.glist ≡ []
    → t.check.tpe.have_printk ≡ false
    → finish (on_path again (ended t)) ≡ some (r, s)
    → r ≢ einval
    → (t.sp_max < stack_max) × (s.check.ebuf ≡ t.check.ebuf)
unfolding on_path next_path finish set_printk
accepted_path again t free quiet ok good = ground arith

-- What is accepted on one path has kept the bound, and its buffer is as the path has left it.
accepted :
    (cfg : Config) (shifts : Shifts) (do_div : DivOp → ℕ → ℕ → ℕ) (fuel : ℕ) (space : List ℕ)
    (c : Check) (t : Simple) {r : Ret} {s : Simple}
    → walk cfg shifts do_div (suc (length c.ebuf)) (start c space) ≡ ended t
    → t.glist ≡ []
    → t.check.tpe.have_printk ≡ false
    → check_x_simple cfg shifts do_div (suc fuel) space c ≡ some (r, s)
    → r ≢ einval
    → (t.sp_max < stack_max) × (s.check.ebuf ≡ t.check.ebuf)
unfolding check_x_simple check_paths
accepted cfg shifts do_div fuel space c t e free quiet ok good =
    accepted_path (check_paths cfg shifts do_div fuel) t free quiet (rw e at ok) good

-- `gtp_check_x_simple` against `gtp_action_x`. Let the check accept an expression of at most 0x2c00
-- bytes with a result other than -EINVAL, its type still 'X', where the path from its start ends
-- at an `end`, has no `if_goto` (it leaves no destination behind) and sets no printk flag. Then on
-- the buffer that the check leaves, with any stack of STACK_MAX cells, any world and any flags,
-- the interpreter ends within one round for each byte and one more: no access is outside the
-- stack or the buffer, its stack does not overflow, and `gtp_var_lock` is free at the end. Only a
-- division by a number, not 0, whose low 32 bits are 0 stops it before, by a fault of `do_div`.
pub check_x_simple-IsSafe :
    (h : Host) (cfg : Config) (fuel : ℕ) (space : List ℕ) (c : Check) (t s : Simple) {r : Ret}
    → length c.ebuf ≤ 0x2c00
    → walk cfg h.shifts h.do_div (suc (length c.ebuf)) (start c space) ≡ ended t
    → t.glist ≡ []
    → t.check.tpe.have_printk ≡ false
    → check_x_simple cfg h.shifts h.do_div (suc fuel) space c ≡ some (r, s)
    → r ≢ einval
    → s.type_x ≡ true
    → (lock printk : Bool) (stack : List ℕ) → length stack ≡ stack_max
    → (gts_run : Option ℕ) (w : h.World)
    → EndsSafely (
        action_x h
          (record {
            ebuf = s.check.ebuf;
            type_x = s.type_x;
            need_var_lock = lock;
            have_printk = printk;
          })
          (suc (length c.ebuf))
          stack
          gts_run
          w)
check_x_simple-IsSafe h cfg fuel space c t s small e free quiet ok good x lock printk stack wide
      gts_run w =
    let (low, whole) = accepted cfg h.shifts h.do_div fuel space c t e free quiet ok good in
    let found =
      walk-Found t free low cfg h.shifts h.do_div (suc (length c.ebuf)) (start c space)
        (omega arith) small e in
    let size : length s.check.ebuf ≡ length c.ebuf = ap length whole ∙ found.kept.size in
    action_x-Route h _ (rw whole found.route) x (suc (length c.ebuf)) (omega arith) stack wide
      gts_run w
