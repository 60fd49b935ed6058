-- ===== src/Agent/Route.antt =====
-- A forward route through a buffer along which no access is out of bounds, and the interpreter on it.
use kgtp.Base.{
  ℕ, zero, suc, ◌+◌, ◌-◌, ◌*◌, ◌%◌, ◌^◌, ◌<◌, ◌≤◌, ◌≡◌, ◌≢◌, refl, ◌∙◌, true, List, none, some,
  arith, length, get_elem?, lt-length_of_get, Option,
}
use kgtp.Agent.Op.{decode, goto, end}
use kgtp.Agent.Host.{Host}
use kgtp.Agent.Machine.{Machine, Outcome, next, out, code_error_out, error_out, fault, div_fault}
use kgtp.Agent.Cases.{exec_goto, exec_end, set_run}
use kgtp.Agent.Exec.{
  Code, Exit, done, failed, crash, div_crash, no_fuel, expr_stack_overflow, exec, overflows, after,
  at_code, run,
}
use kgtp.Agent.Shape.{plain, shape}
use kgtp.Agent.ExecShape.{Reaches}
use kgtp.Agent.ExecFits.{Fits, exec-Lands}

-- From the code at `pc`, with `sp` values under the top.
pub data Route (ebuf : List ℕ) : ℕ → ℕ → Type 0 where
  stops : {pc sp b : ℕ} → get_elem? ebuf pc ≡ some b → decode b ≡ end → Route ebuf pc sp
  steps :
      {pc sp b k n p : ℕ}
      → get_elem? ebuf pc ≡ some b
      → shape (decode b) ≡ plain k n p
      → pc + 1 + k ≤ length ebuf
      → n ≤ sp
      → sp - n + p < 32
      → Route ebuf (pc + 1 + k) (sp - n + p)
      → Route ebuf pc sp
  leaps :
      {pc sp b hi lo : ℕ}
      → get_elem? ebuf pc ≡ some b
      → decode b ≡ goto
      → get_elem? ebuf (pc + 1) ≡ some hi
      → get_elem? ebuf (pc + 2) ≡ some lo
      → pc < hi * 256 + lo
      → Route ebuf (hi * 256 + lo) sp
      → Route ebuf pc sp

-- The run ends, by a return or by an error that is no overflow of the stack, and no access of it is
-- out of bounds, or it stops at a division by a number, not 0, whose low 32 bits are 0.
abbrev pub IsSafe : {W : Type 0} → Exit W → Type 0
IsSafe (done m) = Unit
IsSafe (failed r m) = r ≢ expr_stack_overflow
IsSafe crash = ⊥
IsSafe (div_crash b) = (b ≢ 0) × (b % 2 ^ 32 ≡ 0)
IsSafe no_fuel = ⊥

module _ (h : Host) (c : Code) where
  open h use {World}

  after-IsSafe :
      (pc sp : ℕ) (again : Machine World → Exit World) (o : Outcome World)
      → c.type_x ≡ true
      → Reaches pc sp o
      → ((m : Machine World) → m.pc ≡ pc → m.sp ≡ sp → length m.stack ≡ 32 → IsSafe (again m))
      → IsSafe (after h c again o)
  unfolding after overflows
  after-IsSafe pc sp again (next m) x (p, q, wide) k = rw x (k m p q wide)
  after-IsSafe pc sp again (out m) x r k = tt
  after-IsSafe pc sp again (code_error_out m) x r k = cc
  after-IsSafe pc sp again (error_out m) x r k = cc
  after-IsSafe pc sp again fault x r k = r
  after-IsSafe pc sp again (div_fault b) x r k = r

  set_run-IsSafe :
      (again : Machine World → Exit World) (r : Option ℕ) (m : Machine World)
      → IsSafe (after h c again (set_run h r m))
  unfolding after set_run
  set_run-IsSafe again none m = tt
  set_run-IsSafe again (some _) m = tt

  end-IsSafe :
      (again : Machine World → Exit World) (m : Machine World)
      → IsSafe (after h c again (exec h c end m))
  unfolding exec exec_end
  end-IsSafe again m = set_run-IsSafe again m.run m

  goto-Reaches :
      (m : Machine World) {hi lo : ℕ}
      → get_elem? c.ebuf m.pc ≡ some hi
      → get_elem? c.ebuf (m.pc + 1) ≡ some lo
      → length m.stack ≡ 32
      → Reaches (hi * 256 + lo) m.sp (exec h c goto m)
  unfolding exec exec_goto
  goto-Reaches m g₁ g₂ wide = rw (g₁, g₂) (refl, refl, wide)

  -- Along a route the interpreter is safe, and takes at most one round for each byte of the buffer.
  pub run-Route :
      {pc sp : ℕ} (r : Route c.ebuf pc sp) (fuel : ℕ) (m : Machine World)
      → m.pc ≡ pc
      → m.sp ≡ sp
      → sp < 32
      → length m.stack ≡ 32
      → c.type_x ≡ true
      → length c.ebuf < fuel + pc
      → IsSafe (run h c fuel m)
  unfolding run at_code
  run-Route (stops got e) zero m p q lt wide x enough =
      absurd (omega (arith, lt-length_of_get c.ebuf _ got))
  run-Route (stops {b = b} got e) (suc fuel) m p q lt wide x enough =
      let got' : get_elem? c.ebuf m.pc ≡ some b = rw p got in
      let m' = record m { pc = m.pc + 1 } in rw (got', e) (end-IsSafe (run h c fuel) m')
  run-Route (steps got e room n-le p-lt r) zero m p q lt wide x enough =
      absurd (omega (arith, lt-length_of_get c.ebuf _ got))
  run-Route (steps {b = b} {k = k} {n = n} {p = i} got e room n-le p-lt r) (suc fuel) m p q lt wide
        x enough =
      let got' : get_elem? c.ebuf m.pc ≡ some b = rw p got in
      let m' = record m { pc = m.pc + 1 } in
      let fits : Fits c.ebuf (m.pc + 1) m.sp (plain k n i) = omega arith in
      let lands = exec-Lands h c (decode b) m' wide (omega arith) (rw e fits) in
      rw got' (
        after-IsSafe (m.pc + 1 + k) (m.sp - n + i) (run h c fuel) (exec h c (decode b) m') x
          (rw e at lands)
          (λ m₁ p₁ q₁ wide₁.
            run-Route r fuel m₁ (omega arith) (omega arith) p-lt wide₁ x (omega arith)))
  run-Route (leaps got e g₁ g₂ fwd r) zero m p q lt wide x enough =
      absurd (omega (arith, lt-length_of_get c.ebuf _ got))
  run-Route (leaps {pc = pc} {b = b} {hi = hi} {lo = lo} got e g₁ g₂ fwd r) (suc fuel) m p q lt wide
        x enough =
      let got' : get_elem? c.ebuf m.pc ≡ some b = rw p got in
      let m' = record m { pc = m.pc + 1 } in
      let one : m.pc + 1 ≡ pc + 1 = omega arith in
      let two : m.pc + 1 + 1 ≡ pc + 2 = omega arith in
      rw (got', e)
        (after-IsSafe (hi * 256 + lo) m.sp (run h c fuel) (exec h c goto m') x
          (goto-Reaches m' (rw one g₁) (rw two g₂) wide)
          (λ m₁ p₁ q₁ wide₁. run-Route r fuel m₁ p₁ (q₁ ∙ q) lt wide₁ x (omega arith)))
