-- ===== src/Agent/Tsv.antt =====
-- gtp.c, trace state variables as the checkers see them: `gtp_var_list`, `gtp_var_array`, and what
-- `gtp_check_getv` and `gtp_check_setv` read and write of the tracepoint.
use kgtp.Base.{ℕ, ◌+◌, Bool, true, false, Option, none, some, List, [], ◌∷◌, ◌==◌, if◌then◌else◌}

-- `enum pe_tv_id`
pub data PeTvId : Type 0 where
  unknown cpu config_type config en val enabled running : PeTvId

-- Whether the two hooks that an action uses are there.
pub record Hooks : Type 0 where
  pub agent_get_val : Bool
  pub agent_set_val : Bool

-- `gtp_var_normal` …, with the part of the union that the type selects.
pub data VarType : Type 0 where
  normal per_cpu : VarType
  perf_event perf_event_per_cpu : PeTvId → VarType
  special : Option Hooks → VarType

-- `struct gtp_var`; `addr` is its address, by which two variables are told apart.
pub record Var : Type 0 where
  pub addr : ℕ
  pub num : ℕ
  pub var_type : VarType

unfoldable pub var_find_num : List Var → ℕ → Option Var
var_find_num [] num = none
var_find_num (v ∷ vs) num = if v.num == num then some v else var_find_num vs num

array_find_from : List Var → Var → ℕ → Option ℕ
array_find_from [] v i = none
array_find_from (w ∷ ws) v i = if w.addr == v.addr then some i else array_find_from ws v (i + 1)

-- `none` is the source's -1.
unfoldable pub var_array_find_num : List Var → Var → Option ℕ
unfolding array_find_from
var_array_find_num array v = array_find_from array v 0

-- `enum gtp_entry_type`
pub data EntryType : Type 0 where
  kprobe uprobe watch_static watch_dynamic : EntryType

-- An action of the tracepoint: `collect_r` is 'R', `collect_m` is 'M' with its register, offset and size.
pub data Action : Type 0 where
  collect_r : Action
  collect_m : ℕ → ℕ → ℕ → Action
  other_action : Action

-- `struct gtp_entry`: `flags` bit by bit, and what the checkers change.
pub record Entry : Type 0 where
  pub current_task : Bool
  pub self_trace : Bool
  pub have_printk : Bool
  pub is_kretprobe : Bool
  pub entry_type : EntryType
  pub watch_type : ℕ
  pub watch_size : ℕ
  pub pid : ℕ
  pub action_list : List Action
  pub step_action_list : List Action

unfoldable pub is_watch : Entry → Bool
is_watch tpe = elim tpe.entry_type [ watch_static ↦ true | watch_dynamic ↦ true | _ ↦ false ]

-- `struct gtp_var_rw_flags`: bit 1 is a read, bit 2 a write.
pub record RwFlags : Type 0 where
  pub num : ℕ
  pub reads : Bool
  pub writes : Bool

-- What a check reads and does not change.
pub record Config : Type 0 where
  pub var_list : List Var
  pub var_array : List Var
  pub bt_size : ℕ
  -- Whether the n-th `kmalloc` of the check succeeds.
  pub kmalloc : ℕ → Bool
  -- `step`, as a condition.
  pub step : Bool

-- `struct gtp_check_s` with what its pointers lead to, and the globals that a check sets. The
-- size of the expression is the length of its buffer.
pub record Check : Type 0 where
  pub tpe : Entry
  pub ebuf : List ℕ
  pub need_var_lock : Bool
  pub var_rw_flags : List RwFlags
  pub var_pc_checked : List ℕ
  pub access_cooked_clock : Bool
  pub access_cooked_rdtsc : Bool
  pub have_watch_tracepoint : Bool
  pub kmallocs : ℕ

-- The results of the checks: 0, 1, 2, -EINVAL and -ENOMEM.
pub data Ret : Type 0 where
  zero_ret one_ret two_ret einval enomem : Ret
