-- ===== src/Agent/Quiet.antt =====
-- The codes whose check leaves the buffer as it is: all but those that name a variable.
use native.Mathlib.Decide.{dec_lt}
use kgtp.Base.{
  ℕ, zero, suc, ◌<◌, ◌≡◌, refl, Bool, true, false, arith, if◌then◌else◌, Bool-cases, inl, inr,
}
use kgtp.Agent.Op.{
  Op, decode, bin, check_bin, div, check_div, ref, trace, check_trace, trace_printk, trace_quick,
  trace_quick_printk, log_not, bit_not, ext, zero_ext, if_goto, check_if_goto, goto, const8,
  const16, const32, const64, reg, end, dup, pop, check_pop, swap, check_swap, getv, setv, tracev,
  tracev_printk, other,
}
use kgtp.Agent.Tsv.{Config}
use kgtp.Agent.Round.{
  Simple, Round, go_on, at_end, release, crash, round, check_goto_op, check_if_goto_op,
}

unfoldable pub names_var : Op → Bool
names_var getv = true
names_var setv = true
names_var tracev = true
names_var _ = false

-- The round keeps the buffer.
abbrev pub Quiet : Simple → Round → Type 0
Quiet s (go_on t) = t.check.ebuf ≡ s.check.ebuf
Quiet s (at_end t) = t.check.ebuf ≡ s.check.ebuf
Quiet s (release r t) = Unit
Quiet s crash = Unit

module _ (cfg : Config) (s : Simple) where
  goto-Quiet : Quiet s (check_goto_op cfg s)
  unfolding check_goto_op
  goto-Quiet = ground arith

  if_goto-Quiet : Quiet s (check_if_goto_op cfg s)
  unfolding check_if_goto_op
  if_goto-Quiet = ground arith

  pub round-Quiet : (op : Op) → names_var op ≡ false → Quiet s (round cfg op s)
  unfolding names_var round
  round-Quiet (bin op) e = ground arith
  round-Quiet (div op) e = ground arith
  round-Quiet pop e = ground arith
  round-Quiet swap e = ground arith
  round-Quiet trace e = ground arith
  round-Quiet log_not e = refl
  round-Quiet bit_not e = refl
  round-Quiet (ref n) e = refl
  round-Quiet dup e = refl
  round-Quiet const8 e = ground arith
  round-Quiet ext e = ground arith
  round-Quiet zero_ext e = ground arith
  round-Quiet trace_quick e = ground arith
  round-Quiet const16 e = ground arith
  round-Quiet reg e = ground arith
  round-Quiet const32 e = ground arith
  round-Quiet const64 e = ground arith
  round-Quiet if_goto e = if_goto-Quiet
  round-Quiet goto e = goto-Quiet
  round-Quiet end e = refl
  round-Quiet getv e = cc
  round-Quiet setv e = cc
  round-Quiet tracev e = cc
  round-Quiet trace_printk e = tt
  round-Quiet trace_quick_printk e = tt
  round-Quiet tracev_printk e = tt
  round-Quiet (check_bin _) e = tt
  round-Quiet (check_div _) e = tt
  round-Quiet check_trace e = tt
  round-Quiet check_if_goto e = tt
  round-Quiet check_pop e = tt
  round-Quiet check_swap e = tt
  round-Quiet other e = tt

-- None of the codes below `n` names a variable.
no_variable : ℕ → Bool
unfolding names_var decode
no_variable zero = true
no_variable (suc n) = if names_var (decode n) then false else no_variable n

no_variable-below : (n b : ℕ) → no_variable n ≡ true → b < n → names_var (decode b) ≡ false
unfolding no_variable
no_variable-below zero b h lt = absurd (omega arith)
no_variable-below (suc n) b h lt = elim (Bool-cases (names_var (decode n))) [
  | inl bad ↦ ground arith
  | inr good ↦ elim (dec_lt b n) [
    | yes low ↦ no_variable-below n b (rw good at h) low
    | no high ↦ let e : b ≡ n = omega arith in rw e good
  ]
]

no_variable-table : no_variable 0x2c ≡ true
unfolding no_variable
no_variable-table = refl

-- The codes below that of `getv` name no variable.
pub names_var-decode_low : (b : ℕ) → b < 0x2c → names_var (decode b) ≡ false
names_var-decode_low b lt = no_variable-below 0x2c b no_variable-table lt
