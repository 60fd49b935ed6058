-- ===== src/Hit/Vars.antt =====
-- gtp.c, `gtp_var_agent_get_val` and `gtp_var_agent_set_val`.
use kgtp.Base.{ℕ, Bool, true, false, Option, none, some, get_elem?, set, ltb, length, if◌then◌else◌}
use kgtp.Hit.{Hit, Outside, Var, Storage, special, per_cpu, plain}

-- An access that C does not define.
abbrev pub wild : Hit → Hit
wild hit = record hit { outside = true }

-- `gtp_var_get_pc`: the processor whose value is meant.
abbrev pub cpu_of : ℕ → Option ℕ → ℕ
cpu_of cpu none = cpu
cpu_of cpu (some bound) = bound

abbrev pub known_value : Option ℕ → Hit → Hit × Option ℕ
known_value none hit = (wild hit, none)
known_value (some v) hit = (hit, some v)

module _ (o : Outside) where
  abbrev pub get_storage : Storage → Hit → Hit × Option ℕ
  get_storage (special hooks) hit = o.get_hook hooks hit
  get_storage (per_cpu bound values) hit = known_value (get_elem? values (cpu_of o.cpu bound)) hit
  get_storage (plain v) hit = (hit, some v)

  abbrev pub get_var : Option Var → Hit → Hit × Option ℕ
  get_var none hit = (wild hit, none)
  get_var (some var) hit = get_storage var.storage hit

  -- `gtp_var_agent_get_val`: `none` is a result that is not 0.
  unfoldable pub agent_get_val : ℕ → Hit → Hit × Option ℕ
  agent_get_val num hit = get_var (get_elem? hit.vars num) hit

  abbrev pub put : ℕ → Var → Storage → Hit → Hit
  put num var s hit = record hit { vars = set hit.vars num (record var { storage = s }) }

  abbrev pub set_storage : ℕ → Var → Storage → ℕ → Hit → Hit × Bool
  set_storage num var (special hooks) val hit = o.set_hook hooks val hit
  set_storage num var (per_cpu bound values) val hit =
      let i = cpu_of o.cpu bound in
      if ltb i (length values)
      then (put num var (per_cpu bound (set values i val)) hit, true)
      else (wild hit, false)
  set_storage num var (plain v) val hit = (put num var (plain val) hit, true)

  abbrev pub set_var : ℕ → Option Var → ℕ → Hit → Hit × Bool
  set_var num none val hit = (wild hit, false)
  set_var num (some var) val hit = set_storage num var var.storage val hit

  -- `gtp_var_agent_set_val`: `false` is a result that is not 0.
  unfoldable pub agent_set_val : ℕ → ℕ → Hit → Hit × Bool
  agent_set_val num val hit = set_var num (get_elem? hit.vars num) val hit
