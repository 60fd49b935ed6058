-- ===== src/Agent/RunKept.antt =====
-- gtp.c, `gtp_action_x`: what every call of the host keeps, a run keeps.
use kgtp.Base.{ℕ, zero, suc, ◌+◌, true, false, Option, none, some, List, get_elem?}
use kgtp.Agent.Op.{decode}
use kgtp.Agent.Host.{Host}
use kgtp.Agent.Machine.{Machine, Outcome, next, out, code_error_out, error_out, fault, div_fault}
use kgtp.Agent.Exec.{
  expr_stack_overflow, Code, Exit, done, failed, crash, div_crash, no_fuel, exec, overflows, after,
  at_code, run, unlock, action_x,
}
use kgtp.Agent.WorldKept.{HostKeeps, Kept}
use kgtp.Agent.CasesKept.{exec-Kept}

module _ (h : Host) (P : h.World → Type 0) (keeps : HostKeeps h P) (c : Code) where
  open c use {ebuf, have_printk}

  -- What a run leaves: nothing is said of an access out of bounds or too little fuel.
  abbrev pub LeftBy : Exit h.World → Type 0
  LeftBy (done m) = P m.world
  LeftBy (failed e m) = P m.world
  LeftBy crash = Unit
  LeftBy (div_crash b) = Unit
  LeftBy no_fuel = Unit

  after-LeftBy :
      (again : Machine h.World → Exit h.World) (o : Outcome h.World)
      → ((m : Machine h.World) → P m.world → LeftBy (again m))
      → Kept h P o
      → LeftBy (after h c again o)
  unfolding after
  after-LeftBy again (next m) f p =
      elim (overflows h c m)
        as (λ b. LeftBy (elim b [ true ↦ failed expr_stack_overflow m | false ↦ again m ])) [
          | true ↦ p
          | false ↦ f m p
        ]
  after-LeftBy again (out m) f p = p
  after-LeftBy again (code_error_out m) f p = p
  after-LeftBy again (error_out m) f p = p
  after-LeftBy again fault f p = tt
  after-LeftBy again (div_fault b) f p = tt

  at_code-LeftBy :
      (again : Machine h.World → Exit h.World) (o : Option ℕ) (m : Machine h.World)
      → ((m' : Machine h.World) → P m'.world → LeftBy (again m'))
      → P m.world
      → LeftBy (at_code h c again o m)
  unfolding at_code
  at_code-LeftBy again none m f p = tt
  at_code-LeftBy again (some b) m f p =
      after-LeftBy again (exec h c (decode b) (record m { pc = m.pc + 1 })) f
        (exec-Kept h P keeps c (decode b) (record m { pc = m.pc + 1 }) p)

  run-LeftBy : (fuel : ℕ) (m : Machine h.World) → P m.world → LeftBy (run h c fuel m)
  unfolding run
  run-LeftBy zero m p = tt
  run-LeftBy (suc fuel) m p =
      at_code-LeftBy (run h c fuel) (get_elem? ebuf m.pc) m (run-LeftBy fuel) p

  unlock-LeftBy : (x : Exit h.World) → LeftBy x → LeftBy (unlock h c x).0
  unfolding unlock
  unlock-LeftBy (done m) p = p
  unlock-LeftBy (failed e m) p = p
  unlock-LeftBy crash p = tt
  unlock-LeftBy (div_crash b) p = tt
  unlock-LeftBy no_fuel p = tt

  -- `gtp_action_x` with a host whose calls keep a property of the world, on a world that has it:
  -- where it returns, with either result, the world has the property.
  pub action_x-LeftBy :
      (fuel : ℕ) (stack : List ℕ) (gts_run : Option ℕ) (w : h.World)
      → P w
      → LeftBy (action_x h c fuel stack gts_run w).0
  unfolding action_x
  action_x-LeftBy fuel stack gts_run w p =
      let m : Machine h.World = record {
        pc = 0;
        sp = 0;
        top = 0;
        stack = stack;
        run = gts_run;
        world = w;
      } in
      unlock-LeftBy (run h c fuel m) (run-LeftBy fuel m p)
