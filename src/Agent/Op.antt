-- ===== src/Agent/Op.antt =====
-- gtp.c, the byte codes of an agent expression: GDB's, and the `op_check_*` and `*_printk` codes
-- that the two checkers write into the buffer.
use kgtp.Base.{ℕ, ◌==◌, if◌then◌else◌}

-- The operations on the top of the stack and the value below it.
pub data BinOp : Type 0 where
  add sub mul lsh rsh_signed rsh_unsigned bit_and bit_or bit_xor : BinOp
  equal less_signed less_unsigned : BinOp

pub data DivOp : Type 0 where
  div_signed div_unsigned rem_signed rem_unsigned : DivOp

-- The number of bytes that `ref8` … `ref64` read from memory.
pub data RefSize : Type 0 where
  ref8 ref16 ref32 ref64 : RefSize

-- One constructor for each `case`; `other` is every code that no `case` names.
pub data Op : Type 0 where
  bin check_bin : BinOp → Op
  div check_div : DivOp → Op
  ref : RefSize → Op
  trace check_trace trace_printk trace_quick trace_quick_printk : Op
  log_not bit_not ext zero_ext : Op
  if_goto check_if_goto goto : Op
  const8 const16 const32 const64 : Op
  reg end dup pop check_pop swap check_swap : Op
  getv setv tracev tracev_printk : Op
  other : Op

-- The codes from 0xe0 on, which only the checkers write.
decode_check : ℕ → Op
decode_check b =
    if b == 0xe0
    then check_bin add
    else if b == 0xe1
    then check_bin sub
    else if b == 0xe2
    then check_bin mul
    else if b == 0xe3
    then check_div div_signed
    else if b == 0xe4
    then check_div div_unsigned
    else if b == 0xe5
    then check_div rem_signed
    else if b == 0xe6
    then check_div rem_unsigned
    else if b == 0xe7
    then check_bin lsh
    else if b == 0xe8
    then check_bin rsh_signed
    else if b == 0xe9
    then check_bin rsh_unsigned
    else if b == 0xea
    then check_trace
    else if b == 0xeb
    then check_bin bit_and
    else if b == 0xec
    then check_bin bit_or
    else if b == 0xed
    then check_bin bit_xor
    else if b == 0xee
    then check_bin equal
    else if b == 0xef
    then check_bin less_signed
    else if b == 0xf0
    then check_bin less_unsigned
    else if b == 0xf1
    then check_pop
    else if b == 0xf2
    then check_swap
    else if b == 0xf3
    then check_if_goto
    else if b == 0xfd
    then trace_printk
    else if b == 0xfe
    then trace_quick_printk
    else if b == 0xff
    then tracev_printk
    else other

decode_stack : ℕ → Op
unfolding decode_check
decode_stack b =
    if b == 0x1a
    then ref ref64
    else if b == 0x20
    then if_goto
    else if b == 0x21
    then goto
    else if b == 0x22
    then const8
    else if b == 0x23
    then const16
    else if b == 0x24
    then const32
    else if b == 0x25
    then const64
    else if b == 0x26
    then reg
    else if b == 0x27
    then end
    else if b == 0x28
    then dup
    else if b == 0x29
    then pop
    else if b == 0x2a
    then zero_ext
    else if b == 0x2b
    then swap
    else if b == 0x2c
    then getv
    else if b == 0x2d
    then setv
    else if b == 0x2e
    then tracev
    else decode_check b

-- The `switch` on `ebuf[pc]`.
unfoldable pub decode : ℕ → Op
unfolding decode_stack
decode b =
    if b == 0x02
    then bin add
    else if b == 0x03
    then bin sub
    else if b == 0x04
    then bin mul
    else if b == 0x05
    then div div_signed
    else if b == 0x06
    then div div_unsigned
    else if b == 0x07
    then div rem_signed
    else if b == 0x08
    then div rem_unsigned
    else if b == 0x09
    then bin lsh
    else if b == 0x0a
    then bin rsh_signed
    else if b == 0x0b
    then bin rsh_unsigned
    else if b == 0x0c
    then trace
    else if b == 0x0d
    then trace_quick
    else if b == 0x0e
    then log_not
    else if b == 0x0f
    then bin bit_and
    else if b == 0x10
    then bin bit_or
    else if b == 0x11
    then bin bit_xor
    else if b == 0x12
    then bit_not
    else if b == 0x13
    then bin equal
    else if b == 0x14
    then bin less_signed
    else if b == 0x15
    then bin less_unsigned
    else if b == 0x16
    then ext
    else if b == 0x17
    then ref ref8
    else if b == 0x18
    then ref ref16
    else if b == 0x19
    then ref ref32
    else decode_stack b

-- The byte that `gtp_check_x_loop` writes over an operation that takes from the stack.
unfoldable pub check_bin_code : BinOp → ℕ
check_bin_code add = 0xe0
check_bin_code sub = 0xe1
check_bin_code mul = 0xe2
check_bin_code lsh = 0xe7
check_bin_code rsh_signed = 0xe8
check_bin_code rsh_unsigned = 0xe9
check_bin_code bit_and = 0xeb
check_bin_code bit_or = 0xec
check_bin_code bit_xor = 0xed
check_bin_code equal = 0xee
check_bin_code less_signed = 0xef
check_bin_code less_unsigned = 0xf0

unfoldable pub check_div_code : DivOp → ℕ
check_div_code div_signed = 0xe3
check_div_code div_unsigned = 0xe4
check_div_code rem_signed = 0xe5
check_div_code rem_unsigned = 0xe6
