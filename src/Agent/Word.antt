-- ===== src/Agent/Word.antt =====
-- gtp.c, the arithmetic of `ULONGEST` and `LONGEST`, 64 bits wide: a word is its bit pattern, a
-- number below 2 ^ 64, and a signed word is read through its top bit.
use Prim.Native.Nat.{bit_and as nat_and, bit_or as nat_or, bit_xor as nat_xor}
use kgtp.Base.{ℕ, ◌+◌, ◌-◌, ◌*◌, ◌/◌, ◌%◌, ◌^◌, Bool, true, false, ◌==◌, ltb, if◌then◌else◌, ◌&&◌}
use kgtp.Agent.Op.{
  BinOp, add, sub, mul, lsh, rsh_signed, rsh_unsigned, bit_and, bit_or, bit_xor, equal, less_signed,
  less_unsigned,
}

abbrev pub word : ℕ
word = 2 ^ 64

-- `a - b`
abbrev pub sub_word : ℕ → ℕ → ℕ
sub_word a b = (a + word - b % word) % word

-- The value of a C comparison.
abbrev pub truth : Bool → ℕ
truth true = 1
truth false = 0

-- `(LONGEST) a < (LONGEST) b`: moving both by 2 ^ 63 turns the signed order into the unsigned one.
abbrev pub signed_lt : ℕ → ℕ → Bool
signed_lt a b = ltb ((a + 2 ^ 63) % word) ((b + 2 ^ 63) % word)

-- `(LONGEST) a >> n` for n < 64 copies the sign bit.
abbrev pub shift_signed : ℕ → ℕ → ℕ
shift_signed a n = if ltb a (2 ^ 63) then a / 2 ^ n else word - 1 - (word - 1 - a) / 2 ^ n

-- What the compiler makes of the shifts that C leaves undefined: a count of 64 or more, and
-- `1 << (arg - 1)` in `int` for an `arg` that is 0 or more than 31.
pub record Shifts : Type 0 where
  pub wide : BinOp → ℕ → ℕ → ℕ
  pub int_one : ℕ → ℕ

module _ (c : Shifts) where
  abbrev shift : BinOp → ℕ → ℕ → ℕ → ℕ
  shift op a n r = if ltb n 64 then r else c.wide op a n

  -- `top = stack[sp - 1] op top`
  unfoldable pub alu : BinOp → ℕ → ℕ → ℕ
  alu add a top = (top + a) % word
  alu sub a top = sub_word a top
  alu mul a top = top * a % word
  alu lsh a top = shift lsh a top (a * 2 ^ top % word)
  alu rsh_signed a top = shift rsh_signed a top (shift_signed a top)
  alu rsh_unsigned a top = shift rsh_unsigned a top (a / 2 ^ top)
  alu bit_and a top = nat_and top a
  alu bit_or a top = nat_or top a
  alu bit_xor a top = nat_xor top a
  alu equal a top = truth (a == top)
  alu less_signed a top = truth (signed_lt a top)
  alu less_unsigned a top = truth (ltb a top)

  -- `LONGEST mask = 1 << (arg - 1)`
  abbrev ext_mask : ℕ → ℕ
  ext_mask arg = if ltb 0 arg && ltb arg 32 then 2 ^ (arg - 1) else c.int_one arg

  -- `ext`: sign extension from `arg` bits, with the source's `int` mask.
  unfoldable pub extend_sign : ℕ → ℕ → ℕ
  extend_sign arg top =
      if ltb arg 64 then sub_word (nat_xor (top % 2 ^ arg) (ext_mask arg)) (ext_mask arg) else top

-- `zero_ext`
unfoldable pub extend_zero : ℕ → ℕ → ℕ
extend_zero arg top = if ltb arg 64 then top % 2 ^ arg else top

-- `top = !top`
unfoldable pub log_not : ℕ → ℕ
log_not top = truth (top == 0)

-- `top = ~top`
unfoldable pub bit_not : ℕ → ℕ
bit_not top = sub_word (word - 1) top
