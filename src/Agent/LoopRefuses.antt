-- ===== src/Agent/LoopRefuses.antt =====
-- gtp.c, `gtp_check_x_loop` on operations that it meets twice, and on writes to a variable.
use kgtp.Base.{
  ℕ, suc, ◌+◌, ◌*◌, ◌/◌, ◌%◌, ◌⊎◌, inl, inr, ◌<◌, ◌≡◌, ◌≢◌, refl, true, false, Option, none, some,
  List, [], ◌∷◌, arith, length, get_elem?, lt→leb_false, ◌∙◌,
}
use kgtp.Agent.Op.{
  BinOp, DivOp, div_signed, div_unsigned, rem_signed, rem_unsigned, check_div_code, add, sub, mul,
  lsh, rsh_signed, rsh_unsigned, bit_and, bit_or, bit_xor, equal, less_signed, less_unsigned,
  decode, check_bin_code,
}
use kgtp.Agent.Tsv.{
  Config, Check, Ret, zero_ret, one_ret, two_ret, einval, enomem, Var, VarType, normal,
  var_find_num, var_array_find_num,
}
use kgtp.Agent.Kept.{check_var_add-ebuf}
use kgtp.Agent.VarAdd.{check_var_add, var_pc_checked_find, finish_var, after_add, add_index}
use kgtp.Agent.Setv.{check_setv, setv_found, setv_type}
use kgtp.Agent.Loop.{
  Loop, check_x_loop, check_loop, on_loop_code, on_loop_round, loop_round, loop_if_goto,
  if_goto_found, x_loop_find, loop_setv,
}

-- The check ends with a result other than 0.
abbrev pub IsRefused : Option (Ret × Loop) → Type 0
IsRefused none = ⊥
IsRefused (some (r, l)) = r ≢ zero_ret

-- The code of an operation, before a check.
unfoldable pub bin_code : BinOp → ℕ
bin_code add = 0x02
bin_code sub = 0x03
bin_code mul = 0x04
bin_code lsh = 0x09
bin_code rsh_signed = 0x0a
bin_code rsh_unsigned = 0x0b
bin_code bit_and = 0x0f
bin_code bit_or = 0x10
bin_code bit_xor = 0x11
bin_code equal = 0x13
bin_code less_signed = 0x14
bin_code less_unsigned = 0x15

unfoldable pub div_code : DivOp → ℕ
div_code div_signed = 0x05
div_code div_unsigned = 0x06
div_code rem_signed = 0x07
div_code rem_unsigned = 0x08

-- The operations on two values
abbrev pub code_of : BinOp ⊎ DivOp → ℕ
code_of (inl op) = bin_code op
code_of (inr op) = div_code op

-- `op; if_goto 0`, and what follows
abbrev pub repeated : BinOp ⊎ DivOp → List ℕ → List ℕ
repeated op rest = code_of op ∷ 0x20 ∷ 0 ∷ 0 ∷ rest

-- `gtp_check_x_loop` refuses, for every operation on two values, divisions included, every expression
-- that starts by the loop `op; if_goto 0`, whatever follows: the second time round it meets the
-- `op_check_*` code that it has written itself, which no `case` of it takes.
pub check_x_loop-refuses_bin :
    (cfg : Config) (fuel : ℕ) (c : Check) (op : BinOp ⊎ DivOp) (rest : List ℕ)
    → IsRefused (check_x_loop cfg (suc (suc (suc fuel))) (record c { ebuf = repeated op rest }))
unfolding check_x_loop check_loop on_loop_code on_loop_round loop_round loop_if_goto if_goto_found
    x_loop_find decode bin_code div_code check_bin_code check_div_code
check_x_loop-refuses_bin cfg fuel c (inl add) rest = ground arith
check_x_loop-refuses_bin cfg fuel c (inl _) rest = ground arith
check_x_loop-refuses_bin cfg fuel c (inr div_signed) rest = ground arith
check_x_loop-refuses_bin cfg fuel c (inr _) rest = ground arith

-- Behind the entry in the list of variables: no success, or the index is in the buffer.
after_write :
    (cfg : Config) (i hi lo : ℕ) (rest : List ℕ) (r : Ret × Check)
    → r.1.ebuf ≡ 0x2d ∷ hi ∷ lo ∷ rest
    → ((after_add cfg false (some i) 1 r).0 ≢ zero_ret)
      ⊎ ((after_add cfg false (some i) 1 r).1.ebuf ≡ 0x2d ∷ (i / 256 % 256) ∷ (i % 256) ∷ rest)
unfolding after_add add_index
after_write cfg i hi lo rest (zero_ret, c') e = inr (rw e)
after_write cfg i hi lo rest (r, c') e = inl (cc)

module _ (cfg : Config) (hi lo i : ℕ) (rest : List ℕ) (v : Var) where
  write_type : VarType → Check → Ret × Check
  write_type t c = finish_var cfg v (hi * 256 + lo) 1 (setv_type cfg t true none (hi * 256 + lo) c)

  write_normal :
      (t : VarType) (c : Check)
      → t ≡ normal
      → var_array_find_num cfg.var_array v ≡ some i
      → c.ebuf ≡ 0x2d ∷ hi ∷ lo ∷ rest
      → ((write_type t c).0 ≢ zero_ret)
        ⊎ ((write_type t c).1.ebuf ≡ 0x2d ∷ (i / 256 % 256) ∷ (i % 256) ∷ rest)
  unfolding write_type finish_var setv_type
  write_normal normal c kind index e = rw index (
      after_write cfg i hi lo rest (check_var_add cfg c 3 (hi * 256 + lo) false true)
        (check_var_add-ebuf cfg c 3 (hi * 256 + lo) false true ∙ e))
  write_normal _ c kind index e = cc

  write_head :
      (c : Check)
      → var_find_num cfg.var_list (hi * 256 + lo) ≡ some v
      → v.var_type ≡ normal
      → var_array_find_num cfg.var_array v ≡ some i
      → let r =
          check_setv cfg
            (record c { ebuf = 0x2d ∷ hi ∷ lo ∷ rest; var_pc_checked = [] })
            1
            true
            none in
        (r.0 ≢ zero_ret) ⊎ (r.1.ebuf ≡ 0x2d ∷ (i / 256 % 256) ∷ (i % 256) ∷ rest)
  unfolding check_setv setv_found var_pc_checked_find write_type
  write_head c found kind index =
      rw (lt→leb_false (length (0x2d ∷ hi ∷ lo ∷ rest)) 2 (omega arith), found)
        (write_normal v.var_type _ kind index refl)

-- The round behind a `setv` at the start meets the first byte of the index.
setv_round :
    (cfg : Config) (fuel i : ℕ) (rest : List ℕ) (l : Loop) (r : Ret × Check)
    → i < 256
    → l.pc ≡ 1
    → (r.0 ≢ zero_ret) ⊎ (r.1.ebuf ≡ 0x2d ∷ (i / 256 % 256) ∷ (i % 256) ∷ rest)
    → IsRefused (on_loop_round cfg (check_loop cfg (suc fuel)) (loop_setv cfg r l))
unfolding on_loop_round check_loop on_loop_code loop_round decode
setv_round cfg fuel i rest l (zero_ret, c) low one (inl bad) = absurd (bad refl)
setv_round cfg fuel i rest l (zero_ret, c) low one (inr e) =
    let high : i / 256 % 256 ≡ 0 = omega arith in
    let got : get_elem? c.ebuf l.pc ≡ some 0 = rw (e, one, high) in rw got (cc)
setv_round cfg fuel i rest l (two_ret, c) low one h = cc
setv_round cfg fuel i rest l (one_ret, c) low one h = cc
setv_round cfg fuel i rest l (einval, c) low one h = cc
setv_round cfg fuel i rest l (enomem, c) low one h = cc

-- `gtp_check_x_loop` refuses every expression that starts by a `setv` to a normal variable whose
-- index in `gtp_var_array` is below 256, whatever follows: it does not pass over the two bytes of
-- the number, and takes the first of them, 0, for a code.
pub check_x_loop-refuses_setv :
    (cfg : Config) (fuel : ℕ) (c : Check) (hi lo i : ℕ) (rest : List ℕ) (v : Var)
    → var_find_num cfg.var_list (hi * 256 + lo) ≡ some v
    → v.var_type ≡ normal
    → var_array_find_num cfg.var_array v ≡ some i
    → i < 256
    → IsRefused (check_x_loop cfg (suc (suc fuel)) (record c { ebuf = 0x2d ∷ hi ∷ lo ∷ rest }))
unfolding check_x_loop check_loop on_loop_code loop_round decode
check_x_loop-refuses_setv cfg fuel c hi lo i rest v found kind index low =
    let c' = record c {
      tpe = record (c.tpe) { have_printk = false };
      var_rw_flags = [];
      ebuf = 0x2d ∷ hi ∷ lo ∷ rest;
      var_pc_checked = [];
    } in
    setv_round cfg fuel i rest (record { check = c'; pc = 1; glist = [] })
      (check_setv cfg c' 1 true none) low refl (write_head cfg hi lo i rest v c' found kind index)
