-- ===== src/Agent/Shape.antt =====
-- What each code asks of the stack and of the buffer, as a table: the two `switch`es, of the checker
-- and of the interpreter, are compared through it.
use kgtp.Base.{ℕ}
use kgtp.Agent.Op.{
  Op, bin, check_bin, div, check_div, ref, trace, check_trace, trace_printk, trace_quick,
  trace_quick_printk, log_not, bit_not, ext, zero_ext, if_goto, check_if_goto, goto, const8,
  const16, const32, const64, reg, end, dup, pop, check_pop, swap, check_swap, getv, setv, tracev,
  tracev_printk, other,
}

-- `plain k n p`: k bytes follow the code, it needs n values on the stack, and leaves p in their place.
pub data Shape : Type 0 where
  plain : ℕ → ℕ → ℕ → Shape
  jumps branches ends unchecked : Shape

unfoldable pub shape : Op → Shape
shape (bin _) = plain 0 1 0
shape (div _) = plain 0 1 0
shape pop = plain 0 1 0
shape swap = plain 0 1 1
shape trace = plain 0 2 0
shape trace_printk = plain 0 2 0
shape log_not = plain 0 0 0
shape bit_not = plain 0 0 0
shape (ref _) = plain 0 0 0
shape dup = plain 0 0 1
shape ext = plain 1 0 0
shape zero_ext = plain 1 0 0
shape trace_quick = plain 1 0 0
shape trace_quick_printk = plain 1 0 0
shape const8 = plain 1 0 1
shape const16 = plain 2 0 1
shape const32 = plain 4 0 1
shape const64 = plain 8 0 1
shape reg = plain 2 0 1
shape getv = plain 2 0 1
shape setv = plain 2 0 0
shape tracev = plain 2 0 0
shape tracev_printk = plain 2 0 0
shape if_goto = branches
shape goto = jumps
shape end = ends
shape (check_bin _) = unchecked
shape (check_div _) = unchecked
shape check_trace = unchecked
shape check_if_goto = unchecked
shape check_pop = unchecked
shape check_swap = unchecked
shape other = unchecked
