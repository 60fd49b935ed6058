-- ===== src/Agent/Machine.antt =====
-- gtp.c, the local variables of `gtp_action_x` and its accesses to `stack` and `ebuf`.
use kgtp.Base.{
  ℕ, zero, suc, ◌+◌, ◌-◌, ◌*◌, ◌%◌, ◌^◌, Option, none, some, List, ltb, length, get_elem?, set,
  if◌then◌else◌,
}

abbrev pub stack_max : ℕ
stack_max = 32

pub record Machine (W : Type 0) : Type 0 where
  pub pc : ℕ
  pub sp : ℕ
  pub top : ℕ
  pub stack : List ℕ
  -- `*gts->run`, where `gts->run` is not null.
  pub run : Option ℕ
  pub world : W

-- Where one round of the loop leads. `fault` is an access outside `stack` or `ebuf`, and `div_fault`
-- a division by a number, not 0 itself, that is 0 as the kernel's `do_div` takes it.
pub data Outcome (W : Type 0) : Type 0 where
  next : Machine W → Outcome W
  out : Machine W → Outcome W
  code_error_out : Machine W → Outcome W
  error_out : Machine W → Outcome W
  fault : Outcome W
  div_fault : ℕ → Outcome W

module _ {W : Type 0} where
  -- A read: `none` is out of bounds.
  abbrev pub or_fault : Option ℕ → (ℕ → Outcome W) → Outcome W
  or_fault none k = fault
  or_fault (some a) k = k a

  -- `stack[--sp]`; `sp` is an unsigned int, so that 0 wraps.
  abbrev pub pop_stack : Machine W → (ℕ → Machine W → Outcome W) → Outcome W
  pop_stack m k =
      let i = (m.sp + 2 ^ 32 - 1) % 2 ^ 32 in
      or_fault (get_elem? m.stack i) (λ v. k v (record m { sp = i }))

  -- `stack[i] = v`
  abbrev pub store : Machine W → ℕ → ℕ → (Machine W → Outcome W) → Outcome W
  store m i v k = if ltb i (length m.stack) then k (record m { stack = set m.stack i v }) else fault

  -- `stack[sp++] = top`
  abbrev pub push_top : Machine W → (Machine W → Outcome W) → Outcome W
  push_top m k = store m m.sp m.top (λ m'. k (record m' { sp = (m.sp + 1) % 2 ^ 32 }))

  module _ (ebuf : List ℕ) where
    -- `ebuf[i]`
    abbrev pub byte_at : ℕ → (ℕ → Outcome W) → Outcome W
    byte_at i k = or_fault (get_elem? ebuf i) k

    -- `ebuf[pc++]`
    abbrev pub fetch : Machine W → (ℕ → Machine W → Outcome W) → Outcome W
    fetch m k = byte_at m.pc (λ b. k b (record m { pc = m.pc + 1 }))

    -- `arg = ebuf[pc++]; arg = (arg << 8) + ebuf[pc++];`
    abbrev pub fetch_arg : Machine W → (ℕ → Machine W → Outcome W) → Outcome W
    fetch_arg m k = fetch m (λ hi m₁. fetch m₁ (λ lo m₂. k (hi * 256 + lo) m₂))

    -- `top = (top << 8) + ebuf[pc++];`, n times.
    unfoldable pub fetch_const : ℕ → Machine W → (Machine W → Outcome W) → Outcome W
    fetch_const zero m k = k m
    fetch_const (suc n) m k =
        fetch m (λ b m'. fetch_const n (record m' { top = (m.top * 256 + b) % 2 ^ 64 }) k)
