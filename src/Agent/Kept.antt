-- ===== src/Agent/Kept.antt =====
-- gtp.c, `gtp_check_getv` and `gtp_check_setv`: the buffer that they leave.
use kgtp.Base.{
  ℕ, ◌+◌, ◌/◌, ◌%◌, ◌≤◌, ◌<◌, ◌≡◌, ◌≢◌, refl, ap, ◌∙◌, Bool, Option, none, some, List, arith,
  length, get_elem?, set, length-set, get_elem?-set_ne, leb, Bool-cases, inl, inr,
}
use kgtp.Agent.Tsv.{
  Config, Check, Var, VarType, normal, per_cpu, perf_event, perf_event_per_cpu, special, Hooks, Ret,
  zero_ret, einval, var_find_num, var_array_find_num,
}
use kgtp.Agent.VarAdd.{
  check_var_add, add_backtrace_actions, Decision, stop, go, finish_var, add_index, after_add,
  var_arg, var_pc_checked_find, Known,
}
use kgtp.Agent.Getv.{getv_type, getv_special, getv_found, check_getv}
use kgtp.Agent.Setv.{setv_type, setv_special, setv_found, check_setv}

-- `b` is `a` but for bytes from `i` on.
pub record Kept (i : ℕ) (a b : List ℕ) : Type 0 where
  pub size : length b ≡ length a
  pub same : (j : ℕ) → j < i → get_elem? b j ≡ get_elem? a j

pub Kept-refl : (i : ℕ) (a : List ℕ) → Kept i a a
Kept-refl i a = record { size = refl; same = λ j lt. refl }

pub Kept-trans : (i j : ℕ) (a b c : List ℕ) → i ≤ j → Kept i a b → Kept j b c → Kept i a c
Kept-trans i j a b c le x y = record {
  size = y.size ∙ x.size;
  same = λ n lt. y.same n (omega arith) ∙ x.same n lt;
}

pub Kept-le : (i j : ℕ) (a b : List ℕ) → i ≤ j → Kept j a b → Kept i a b
Kept-le i j a b le x = record { size = x.size; same = λ n lt. x.same n (omega arith) }

-- To name the buffer that a check starts from.
pub Kept-from : (i : ℕ) (a a' b : List ℕ) → a ≡ a' → Kept i a b → Kept i a' b
Kept-from i a a' b e x = record {
  size = x.size ∙ ap length e;
  same = λ n lt. x.same n lt ∙ ap (λ l. get_elem? l n) e;
}

Kept-set : (i j v : ℕ) (a : List ℕ) → i ≤ j → Kept i a (set a j v)
Kept-set i j v a le = record {
  size = length-set a j v;
  same = λ n lt. get_elem?-set_ne a j n v (omega arith);
}

module _ (cfg : Config) where
  pub check_var_add-ebuf :
      (c : Check) (pc num : ℕ) (r w : Bool) → (check_var_add cfg c pc num r w).1.ebuf ≡ c.ebuf
  unfolding check_var_add
  check_var_add-ebuf c pc num r w = ground arith

  add_backtrace_actions-ebuf : (c : Check) → (add_backtrace_actions cfg c).1.ebuf ≡ c.ebuf
  unfolding add_backtrace_actions
  add_backtrace_actions-ebuf c = ground arith

  decided : Decision → Check
  decided (stop r c) = c
  decided (go r w k c) = c

  getv_special-ebuf :
      (o : Option Hooks) (arg : ℕ) (c : Check) → (decided (getv_special cfg o arg c)).ebuf ≡ c.ebuf
  unfolding decided getv_special
  getv_special-ebuf o arg c = ground (arith, add_backtrace_actions-ebuf c)

  getv_type-ebuf :
      (t : VarType) (arg : ℕ) (c : Check) → (decided (getv_type cfg t arg c)).ebuf ≡ c.ebuf
  unfolding getv_type decided
  getv_type-ebuf (special o) arg c = getv_special-ebuf o arg c
  getv_type-ebuf normal arg c = refl
  getv_type-ebuf per_cpu arg c = refl
  getv_type-ebuf (perf_event id) arg c = ground arith
  getv_type-ebuf (perf_event_per_cpu id) arg c = ground arith

  setv_special-ebuf :
      (o : Option Hooks) (loop : Bool) (top : Known) (arg : ℕ) (c : Check)
      → (decided (setv_special cfg o loop top arg c)).ebuf ≡ c.ebuf
  unfolding decided setv_special
  setv_special-ebuf o loop top arg c = ground (arith, add_backtrace_actions-ebuf c)

  setv_type-ebuf :
      (t : VarType) (loop : Bool) (top : Known) (arg : ℕ) (c : Check)
      → (decided (setv_type cfg t loop top arg c)).ebuf ≡ c.ebuf
  unfolding setv_type decided
  setv_type-ebuf (special o) loop top arg c = setv_special-ebuf o loop top arg c
  setv_type-ebuf normal loop top arg c = refl
  setv_type-ebuf per_cpu loop top arg c = refl
  setv_type-ebuf (perf_event id) loop top arg c = ground arith
  setv_type-ebuf (perf_event_per_cpu id) loop top arg c = ground arith

  add_index-Kept :
      (k : Bool) (i : Option ℕ) (pc : ℕ) (c : Check)
      → Kept pc c.ebuf (add_index cfg k i pc c).1.ebuf
  unfolding add_index
  add_index-Kept k none pc c = Kept-refl pc c.ebuf
  add_index-Kept k (some i) pc c =
      let v = i / 256 % 256 in
      let a = set c.ebuf pc v in
      Kept-trans pc pc c.ebuf a (set a (pc + 1) (i % 256)) (omega arith)
        (Kept-set pc pc v c.ebuf (omega arith)) (Kept-set pc (pc + 1) (i % 256) a (omega arith))

  after_add-Kept :
      (k : Bool) (i : Option ℕ) (pc : ℕ) (r : Ret × Check)
      → Kept pc (r.1.ebuf) (after_add cfg k i pc r).1.ebuf
  unfolding after_add
  after_add-Kept k i pc (zero_ret, c) = add_index-Kept k i pc c
  after_add-Kept k i pc (r, c) = Kept-refl pc c.ebuf

  finish_var-Kept :
      (v : Var) (arg pc : ℕ) (d : Decision)
      → Kept pc (decided d).ebuf (finish_var cfg v arg pc d).1.ebuf
  unfolding finish_var decided
  finish_var-Kept v arg pc (stop r c) = Kept-refl pc c.ebuf
  finish_var-Kept v arg pc (go r w k c) =
      Kept-from pc _ c.ebuf _ (check_var_add-ebuf c (pc + 2) arg r w) (
        after_add-Kept k (var_array_find_num cfg.var_array v) pc
          (check_var_add cfg c (pc + 2) arg r w))

  getv_found-Kept :
      (o : Option Var) (arg pc : ℕ) (c : Check) → Kept pc c.ebuf (getv_found cfg o arg pc c).1.ebuf
  unfolding getv_found
  getv_found-Kept none arg pc c = Kept-refl pc c.ebuf
  getv_found-Kept (some v) arg pc c =
      Kept-from pc _ c.ebuf _ (getv_type-ebuf v.var_type arg c)
        (finish_var-Kept v arg pc (getv_type cfg v.var_type arg c))

  setv_found-Kept :
      (o : Option Var) (loop : Bool) (top : Known) (arg pc : ℕ) (c : Check)
      → Kept pc c.ebuf (setv_found cfg o loop top arg pc c).1.ebuf
  unfolding setv_found
  setv_found-Kept none loop top arg pc c = Kept-refl pc c.ebuf
  setv_found-Kept (some v) loop top arg pc c =
      Kept-from pc _ c.ebuf _ (setv_type-ebuf v.var_type loop top arg c)
        (finish_var-Kept v arg pc (setv_type cfg v.var_type loop top arg c))

  -- `gtp_check_getv` keeps the size of the buffer and every byte before the number at `pc`, whatever
  -- it returns.
  pub check_getv-Kept : (c : Check) (pc : ℕ) → Kept pc c.ebuf (check_getv cfg c pc).1.ebuf
  unfolding check_getv
  check_getv-Kept c pc = elim (Bool-cases (leb (length c.ebuf) (pc + 1))) [
    | inl e ↦ rw e (Kept-refl pc c.ebuf)
    | inr e ↦ elim (Bool-cases (var_pc_checked_find c.var_pc_checked (pc + 2))) [
      | inl f ↦ rw (e, f) (Kept-refl pc c.ebuf)
      | inr f ↦
          rw (e, f) (getv_found-Kept (var_find_num cfg.var_list (var_arg c pc)) (var_arg c pc) pc c)
    ]
  ]

  -- `gtp_check_setv` keeps the size of the buffer and every byte before the number at `pc`, whatever
  -- it returns.
  pub check_setv-Kept :
      (c : Check) (pc : ℕ) (loop : Bool) (top : Known)
      → Kept pc c.ebuf (check_setv cfg c pc loop top).1.ebuf
  unfolding check_setv
  check_setv-Kept c pc loop top = elim (Bool-cases (leb (length c.ebuf) (pc + 1))) [
    | inl e ↦ rw e (Kept-refl pc c.ebuf)
    | inr e ↦ elim (Bool-cases (var_pc_checked_find c.var_pc_checked (pc + 2))) [
      | inl f ↦ rw (e, f) (Kept-refl pc c.ebuf)
      | inr f ↦
          rw (e, f)
            (setv_found-Kept (var_find_num cfg.var_list (var_arg c pc)) loop top (var_arg c pc) pc
              c)
    ]
  ]

  pub check_getv-room :
      (c : Check) (pc : ℕ) → (check_getv cfg c pc).0 ≢ einval → pc + 1 < length c.ebuf
  unfolding check_getv
  check_getv-room c pc h = elim (Bool-cases (leb (length c.ebuf) (pc + 1))) [
    | inl e ↦ absurd (h (rw e))
    | inr e ↦ ground arith
  ]

  pub check_setv-room :
      (c : Check) (pc : ℕ) (loop : Bool) (top : Known)
      → (check_setv cfg c pc loop top).0 ≢ einval
      → pc + 1 < length c.ebuf
  unfolding check_setv
  check_setv-room c pc loop top h = elim (Bool-cases (leb (length c.ebuf) (pc + 1))) [
    | inl e ↦ absurd (h (rw e))
    | inr e ↦ ground arith
  ]
