-- ===== src/Agent/ExecShape.antt =====
-- gtp.c, the accesses of `gtp_action_x` to its stack and buffer, against the table of shapes.
use kgtp.Base.{
  ℕ, zero, suc, ◌+◌, ◌-◌, ◌*◌, ◌%◌, ◌^◌, ◌≤◌, ◌<◌, ◌≡◌, ◌≢◌, List, arith, length, get_elem?-total,
  lt→ltb, set,
}
use kgtp.Agent.Machine.{
  Machine, Outcome, next, out, code_error_out, error_out, fault, div_fault, pop_stack, store,
  push_top, byte_at, fetch, fetch_arg, fetch_const,
}

-- The outcome is no fault, but for a division by a number, not 0, whose low 32 bits are 0, and the
-- next round starts at `pc` and `sp` with a stack of 32 cells.
abbrev pub Reaches : {W : Type 0} → ℕ → ℕ → Outcome W → Type 0
Reaches pc sp (next m) = (m.pc ≡ pc) × (m.sp ≡ sp) × (length m.stack ≡ 32)
Reaches pc sp (out m) = Unit
Reaches pc sp (code_error_out m) = Unit
Reaches pc sp (error_out m) = Unit
Reaches pc sp fault = ⊥
Reaches pc sp (div_fault b) = (b ≢ 0) × (b % 2 ^ 32 ≡ 0)

module _ {W : Type 0} (pc sp : ℕ) (m : Machine W) (wide : length m.stack ≡ 32) where
  pub pop_stack-Reaches :
      (k : ℕ → Machine W → Outcome W)
      → 0 < m.sp
      → m.sp ≤ 32
      → ((a : ℕ) → Reaches pc sp (k a (record m { sp = m.sp - 1 })))
      → Reaches pc sp (pop_stack m k)
  pop_stack-Reaches k lo hi h =
      let e : (m.sp + 2 ^ 32 - 1) % 2 ^ 32 ≡ m.sp - 1 = omega arith in
      let (a, got) = get_elem?-total m.stack (m.sp - 1) (omega arith) in rw (e, got) (h a)

  pub store-Reaches :
      (i v : ℕ) (k : Machine W → Outcome W)
      → i < 32
      → Reaches pc sp (k (record m { stack = set m.stack i v }))
      → Reaches pc sp (store m i v k)
  store-Reaches i v k lt h = rw (lt→ltb i (length m.stack) (omega arith)) h

  pub push_top-Reaches :
      (k : Machine W → Outcome W)
      → m.sp < 32
      → Reaches pc sp (k (record m { stack = set m.stack m.sp m.top; sp = m.sp + 1 }))
      → Reaches pc sp (push_top m k)
  push_top-Reaches k lt h =
      let e : (m.sp + 1) % 2 ^ 32 ≡ m.sp + 1 = omega arith in
      rw (lt→ltb m.sp (length m.stack) (omega arith), e) h

module _ {W : Type 0} (ebuf : List ℕ) (pc sp : ℕ) (m : Machine W) where
  pub byte_at-Reaches :
      (i : ℕ) (k : ℕ → Outcome W)
      → i < length ebuf
      → ((b : ℕ) → Reaches pc sp (k b))
      → Reaches pc sp (byte_at ebuf i k)
  byte_at-Reaches i k lt h = let (b, got) = get_elem?-total ebuf i lt in rw got (h b)

  pub fetch-Reaches :
      (k : ℕ → Machine W → Outcome W)
      → m.pc < length ebuf
      → ((b : ℕ) → Reaches pc sp (k b (record m { pc = m.pc + 1 })))
      → Reaches pc sp (fetch ebuf m k)
  fetch-Reaches k lt h = byte_at-Reaches m.pc _ lt h

module _ {W : Type 0} (ebuf : List ℕ) (pc sp : ℕ) where
  pub fetch_arg-Reaches :
      (m : Machine W) (k : ℕ → Machine W → Outcome W)
      → m.pc + 1 < length ebuf
      → ((arg : ℕ) → Reaches pc sp (k arg (record m { pc = m.pc + 2 })))
      → Reaches pc sp (fetch_arg ebuf m k)
  fetch_arg-Reaches m k lt h =
      let (hi, got) = get_elem?-total ebuf m.pc (omega arith) in
      let (lo, got') = get_elem?-total ebuf (m.pc + 1) (omega arith) in
      let e : m.pc + 1 + 1 ≡ m.pc + 2 = omega arith in rw (got, got', e) (h (hi * 256 + lo))

  pub fetch_const-Reaches :
      (n : ℕ) (m : Machine W) (k : Machine W → Outcome W)
      → m.pc + n ≤ length ebuf
      → ((t : ℕ) → Reaches pc sp (k (record m { pc = m.pc + n; top = t })))
      → Reaches pc sp (fetch_const ebuf n m k)
  unfolding fetch_const
  fetch_const-Reaches zero m k lt h = let e : m.pc + 0 ≡ m.pc = omega arith in rw e at (h m.top)
  fetch_const-Reaches (suc n) m k lt h =
      let (b, got) = get_elem?-total ebuf m.pc (omega arith) in
      rw got (
        fetch_const-Reaches n (record m { pc = m.pc + 1; top = (m.top * 256 + b) % 2 ^ 64 }) k
          (omega arith) (λ t. let e : m.pc + 1 + n ≡ m.pc + suc n = omega arith in rw e (h t)))
