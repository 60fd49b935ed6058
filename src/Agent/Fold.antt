-- ===== src/Agent/Fold.antt =====
-- gtp.c, the first `switch` of `gtp_check_x_simple`: the value of the top of the stack while it is
-- known. It works on an array of its own on the kernel's stack, which nothing initialises, and it
-- indexes that array by `sp + 1` where the interpreter pushes at `sp`.
use kgtp.Base.{
  ℕ, zero, suc, ◌+◌, ◌-◌, ◌*◌, ◌%◌, ◌^◌, Bool, false, none, some, List, ◌==◌, ltb, if◌then◌else◌,
  length, get_elem?, set,
}
use kgtp.Agent.Op.{
  Op, BinOp, DivOp, bin, div, ref, trace, trace_quick, log_not, bit_not, ext, zero_ext, if_goto,
  const8, const16, const32, const64, reg, dup, pop, swap, getv,
}
use kgtp.Agent.Word
use kgtp.Agent.Word.{Shifts, alu, extend_sign, extend_zero}

-- `live` is false where the source has set `stack` to NULL.
pub record Fold : Type 0 where
  pub live : Bool
  pub space : List ℕ
  pub top : ℕ

-- `by_zero` is a division whose known divisor is 0; `wild` is an access out of bounds, or a
-- division that faults.
pub data Folded : Type 0 where
  folded : Fold → Folded
  by_zero : Folded
  wild : Folded

module _ (shifts : Shifts) (do_div : DivOp → ℕ → ℕ → ℕ) where
  -- `stack[sp - 1]`, for sp ≥ 1
  abbrev below : Fold → ℕ → (ℕ → Folded) → Folded
  below f sp k = elim (get_elem? f.space (sp - 1)) [ none ↦ wild | some a ↦ k a ]

  abbrev store_fold : Fold → ℕ → ℕ → (Fold → Folded) → Folded
  store_fold f i v k =
      if ltb i (length f.space) then k (record f { space = set f.space i v }) else wild

  -- `if (sp) top = … stack[sp - 1] …;`
  fold_bin : BinOp → ℕ → Fold → Folded
  fold_bin op sp f =
      if ltb 0 sp
      then below f sp (λ a. folded (record f { top = alu shifts op a f.top }))
      else folded f

  -- `do_div` on the divisor as a `uint32_t`
  abbrev divide_fold : DivOp → Fold → ℕ → Folded
  divide_fold op f a =
      if f.top % 2 ^ 32 == 0 then wild else folded (record f { top = do_div op a (f.top % 2 ^ 32) })

  fold_div : DivOp → ℕ → Fold → Folded
  fold_div op sp f =
      if f.top == 0 then by_zero else if ltb 0 sp then below f sp (divide_fold op f) else folded f

  fold_pop : ℕ → Fold → Folded
  fold_pop sp f = if ltb 0 sp then below f sp (λ a. folded (record f { top = a })) else folded f

  fold_swap : ℕ → Fold → Folded
  fold_swap sp f =
      if ltb 0 sp
      then store_fold f sp f.top
          (λ f₁. below f₁ sp (λ a. store_fold (record f₁ { top = a }) (sp - 1) f.top folded))
      else folded f

  module _ (ebuf : List ℕ) where
    abbrev byte_of : ℕ → (ℕ → Folded) → Folded
    byte_of i k = elim (get_elem? ebuf i) [ none ↦ wild | some b ↦ k b ]

    -- `top = (top << 8) + ebuf[i];` for n bytes from i on
    fold_bytes : ℕ → ℕ → Fold → Folded
    fold_bytes zero i f = folded f
    fold_bytes (suc n) i f =
        byte_of i (λ b. fold_bytes n (i + 1) (record f { top = (f.top * 256 + b) % 2 ^ 64 }))

    -- `stack[sp + 1] = top;`, then the constant.
    fold_const : ℕ → ℕ → ℕ → Fold → Folded
    unfolding fold_bytes
    fold_const n pc sp f =
        store_fold f (sp + 1) f.top (λ f₁. fold_bytes n (pc + 1) (record f₁ { top = 0 }))

    -- The `switch`, with `pc` at the code.
    fold_op : Op → ℕ → ℕ → Fold → Folded
    unfolding fold_bin fold_div fold_pop fold_swap fold_const
    fold_op (bin op) pc sp f = fold_bin op sp f
    fold_op (div op) pc sp f = fold_div op sp f
    fold_op log_not pc sp f = folded (record f { top = Word.log_not f.top })
    fold_op bit_not pc sp f = folded (record f { top = Word.bit_not f.top })
    fold_op ext pc sp f =
        byte_of (pc + 1) (λ arg. folded (record f { top = extend_sign shifts arg f.top }))
    fold_op zero_ext pc sp f =
        byte_of (pc + 1) (λ arg. folded (record f { top = extend_zero arg f.top }))
    fold_op const8 pc sp f = fold_const 1 pc sp f
    fold_op const16 pc sp f = fold_const 2 pc sp f
    fold_op const32 pc sp f = fold_const 4 pc sp f
    fold_op const64 pc sp f = fold_const 8 pc sp f
    fold_op dup pc sp f = store_fold f (sp + 1) f.top folded
    fold_op pop pc sp f = fold_pop sp f
    fold_op swap pc sp f = fold_swap sp f
    fold_op trace pc sp f = folded (record f { live = false })
    fold_op trace_quick pc sp f = folded (record f { live = false })
    fold_op (ref n) pc sp f = folded (record f { live = false })
    fold_op if_goto pc sp f = folded (record f { live = false })
    fold_op reg pc sp f = folded (record f { live = false })
    fold_op getv pc sp f = folded (record f { live = false })
    fold_op _ pc sp f = folded f

    -- `if (stack) { switch (ebuf[pc]) … }`
    unfoldable pub fold_step : Op → ℕ → ℕ → Fold → Folded
    unfolding fold_op
    fold_step op pc sp f = if f.live then fold_op op pc sp f else folded f
