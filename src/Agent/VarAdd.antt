-- ===== src/Agent/VarAdd.antt =====
-- gtp.c, `gtp_check_var_add`, `gtp_add_backtrace_actions`, and the part that `gtp_check_getv`
-- and `gtp_check_setv` share.
use kgtp.Base.{
  ℕ, ◌+◌, ◌*◌, ◌/◌, ◌%◌, Bool, true, false, ◌&&◌, ◌||◌, Option, none, some, List, [], ◌∷◌, ◌++◌,
  ◌==◌, if◌then◌else◌, leb, get_or, set,
}
use kgtp.Agent.Tsv.{
  Hooks, Var, var_array_find_num, Action, collect_r, collect_m, RwFlags, Config, Check, Ret,
  zero_ret, one_ret, two_ret, einval, enomem,
}

unfoldable pub rw_flags_find : List RwFlags → ℕ → Bool
rw_flags_find [] num = false
rw_flags_find (r ∷ rs) num = r.num == num || rw_flags_find rs num

-- `rw_flags->flags |= flag` at the first entry of `num`; bit 1 reads and bit 2 writes.
unfoldable pub rw_flags_or : List RwFlags → ℕ → Bool → Bool → List RwFlags
rw_flags_or [] num reads writes = []
rw_flags_or (r ∷ rs) num reads writes =
    if r.num == num
    then record r { reads = r.reads || reads; writes = r.writes || writes } ∷ rs
    else r ∷ rw_flags_or rs num reads writes

-- Whether the first entry of `num` has both bits.
unfoldable pub rw_flags_both : List RwFlags → ℕ → Bool
rw_flags_both [] num = false
rw_flags_both (r ∷ rs) num = if r.num == num then r.reads && r.writes else rw_flags_both rs num

abbrev pub or_flags : Check → List RwFlags → ℕ → Bool → Bool → Check
or_flags c flags num reads writes =
    let flags' = rw_flags_or flags num reads writes in
    record c { var_rw_flags = flags'; need_var_lock = rw_flags_both flags' num }

unfoldable pub var_pc_checked_find : List ℕ → ℕ → Bool
var_pc_checked_find [] pc = false
var_pc_checked_find (p ∷ ps) pc = p == pc || var_pc_checked_find ps pc

unfoldable pub is_r : Action → Bool
is_r collect_r = true
is_r _ = false

unfoldable pub any_action : (Action → Bool) → List Action → Bool
any_action p [] = false
any_action p (a ∷ as') = p a || any_action p as'

-- How the `switch` on the type of the variable goes on: `stop` leaves the function, `go` goes on
-- to `gtp_check_var_add` with the two bits of `flags` and with `is_current`.
pub data Decision : Type 0 where
  stop : Ret → Check → Decision
  go : Bool → Bool → Bool → Check → Decision

module _ (cfg : Config) where
  -- `kmalloc` and `kzalloc`: the check goes on at `good` or at `bad`.
  abbrev pub alloc {ℓ} : {A : Type ℓ} → Check → (Check → A) → (Check → A) → A
  alloc c bad good =
      let c' = record c { kmallocs = c.kmallocs + 1 } in
      if cfg.kmalloc c.kmallocs then good c' else bad c'

  -- The first kmalloc is for `pc_checked`. The source looks a variable up with a cursor that is
  -- not initialised where the list is empty; here an empty list holds no entry.
  unfoldable pub check_var_add : Check → ℕ → ℕ → Bool → Bool → Ret × Check
  unfolding rw_flags_find rw_flags_or rw_flags_both
  check_var_add c pc num reads writes =
      alloc c (λ c₁. (enomem, c₁))
        (λ c₁.
          let fin = λ (c₂ : Check). record c₂ { var_pc_checked = c₂.var_pc_checked ++ (pc ∷ []) } in
          if c₁.need_var_lock
          then (zero_ret, fin c₁)
          else if rw_flags_find c₁.var_rw_flags num
          then (zero_ret, fin (or_flags c₁ c₁.var_rw_flags num reads writes))
          else alloc c₁ (λ c₂. (enomem, c₂))
              (λ c₂.
                let fresh : RwFlags = record { num = num; reads = false; writes = false } in
                (zero_ret, fin (or_flags c₂ (c₂.var_rw_flags ++ (fresh ∷ [])) num reads writes))))

  -- `GTP_SP_NUM` is 7 on x86_64.
  unfoldable pub is_stack : Action → Bool
  is_stack (collect_m regnum offset size) = regnum == 7 && offset == 0 && leb cfg.bt_size size
  is_stack _ = false

  abbrev pub head_list : Check → List Action
  head_list c = if cfg.step then c.tpe.step_action_list else c.tpe.action_list

  -- `list_add_tail(&ae->node, head)`
  abbrev pub add_tail : Check → Action → Check
  add_tail c a =
      let actions = head_list c ++ (a ∷ []) in
      if cfg.step
      then record c { tpe = record (c.tpe) { step_action_list = actions } }
      else record c { tpe = record (c.tpe) { action_list = actions } }

  unfoldable pub add_m : Bool → Check → Ret × Check
  add_m got_m c =
      if got_m
      then (one_ret, c)
      else alloc c (λ c₁. (enomem, c₁)) (λ c₁. (one_ret, add_tail c₁ (collect_m 7 0 cfg.bt_size)))

  unfoldable pub add_backtrace_actions : Check → Ret × Check
  unfolding is_r is_stack any_action add_m
  add_backtrace_actions c =
      let got_m = any_action is_stack (head_list c) in
      if any_action is_r (head_list c)
      then add_m got_m c
      else alloc c (λ c₁. (enomem, c₁)) (λ c₁. add_m got_m (add_tail c₁ collect_r))

  unfoldable pub add_index : Bool → Option ℕ → ℕ → Check → Ret × Check
  add_index is_current none pc c = (einval, c)
  add_index is_current (some i) pc c = (
    if is_current then two_ret else zero_ret,
    record c { ebuf = set (set c.ebuf pc (i / 256 % 256)) (pc + 1) (i % 256) },
  )

  unfoldable pub after_add : Bool → Option ℕ → ℕ → Ret × Check → Ret × Check
  unfolding add_index
  after_add is_current i pc (zero_ret, c) = add_index is_current i pc c
  after_add is_current i pc (r, c) = (r, c)

  -- The end of both functions: the number at `pc`, `pc + 1` becomes the index in `gtp_var_array`.
  -- The position that is recorded is the one behind the number.
  unfoldable pub finish_var : Var → ℕ → ℕ → Decision → Ret × Check
  unfolding after_add
  finish_var v arg pc (stop r c) = (r, c)
  finish_var v arg pc (go reads writes is_current c) =
      after_add is_current (var_array_find_num cfg.var_array v) pc
        (check_var_add c (pc + 2) arg reads writes)

abbrev pub hook_of : (Hooks → Bool) → Option Hooks → Bool
hook_of f none = false
hook_of f (some hooks) = f hooks

-- `arg = ebuf[pc++]; arg = (arg << 8) + ebuf[pc++];`
abbrev pub var_arg : Check → ℕ → ℕ
var_arg c pc = get_or c.ebuf pc 0 * 256 + get_or c.ebuf (pc + 1) 0

-- The known value of the top of the stack: `none` is the source's `stack == NULL`.
abbrev pub Known : Type 0
Known = Option ℕ
