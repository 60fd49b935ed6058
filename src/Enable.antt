-- ===== src/Enable.antt =====
-- gtp.c, tracepoints that are enabled and disabled: `gtp_handler_enable_disable`, which the hooks of
-- special variables call in a hit, and `gtp_gdbrsp_qtenable_qtdisable`.
use kgtp.Base.{
  ℕ, zero, suc, ◌+◌, Bool, true, false, not, Option, none, some, List, [], ◌∷◌, ◌++◌, ◌==◌, ◌&&◌,
  ◌||◌, if◌then◌else◌,
}
use kgtp.Hex.{hex2ulongest}
pub mod Toggle
mod Tests

-- The fields of `struct gtp_entry` that are read here: `is_kprobe` is `type == gtp_entry_kprobe`, and
-- `is_ret` is `GTP_ENTRY_FLAGS_IS_KRETPROBE`.
pub record Tracepoint : Type 0 where
  pub num : ℕ
  pub addr : ℕ
  pub disable : Bool
  pub is_kprobe : Bool
  pub is_ret : Bool

-- `tasklet_schedule` of a tasklet of `gts->tpe`
pub data Tasklet : Type 0 where
  enable_tasklet disable_tasklet : Tasklet

abbrev pub scheduled : Bool → Bool → List Tasklet
scheduled true true = enable_tasklet ∷ []
scheduled false false = disable_tasklet ∷ []
scheduled _ _ = []

-- `val == 0 || tpe->num == val || gts->tpe != tpe`, where the tracepoint of the hit is the `own`th.
abbrev pub is_taken : ℕ → ℕ → ℕ → Tracepoint → Bool
is_taken own val i p = val == 0 || p.num == val || not (i == own)

abbrev pub flip : Tracepoint → Tracepoint
flip p = record p { disable = not p.disable }

-- The loop of `gtp_handler_enable_disable` from the `i`th tracepoint on, with what it schedules.
unfoldable pub enable_disable_from :
    ℕ → ℕ → Bool → ℕ → List Tracepoint → List Tracepoint × List Tasklet
enable_disable_from own val enable i [] = ([], [])
enable_disable_from own val enable i (p ∷ ps) =
    let (ps', ts) = enable_disable_from own val enable (i + 1) ps in
    if is_taken own val i p then (flip p ∷ ps', scheduled enable p.disable ++ ts) else (p ∷ ps', ts)

-- `gtp_handler_enable_disable`
unfoldable pub enable_disable : ℕ → ℕ → Bool → List Tracepoint → List Tracepoint × List Tasklet
unfolding enable_disable_from
enable_disable own val enable ps = enable_disable_from own val enable 0 ps

-- What `gtp_gdbrsp_qtenable_qtdisable` returns: `-EINVAL`, and what the kernel has returned.
pub data EnableReply : Type 0 where
  enable_invalid : EnableReply
  enable_ret : ℕ → EnableReply

-- `kernel` is `enable_kprobe`, `disable_kprobe` and their likes for a `kretprobe`: whether it is one,
-- whether it is enabled, and the address; 0 is success.
module _ (kernel : Bool → Bool → ℕ → ℕ) where
  -- `if (ret != 0) tpe->disable = enable ? 0 : 1;`
  abbrev pub noted_ret : Bool → Tracepoint → ℕ → Tracepoint
  noted_ret enable p ret = if ret == 0 then p else record p { disable = not enable }

  abbrev pub enable_point :
      Bool
      → Tracepoint
      → List Tracepoint
      → (List Tracepoint → List Tracepoint)
      → EnableReply × List Tracepoint
  enable_point enable p ps whole =
      if not p.is_kprobe
      then (enable_invalid, whole (p ∷ ps))
      else (let ret = kernel p.is_ret enable p.addr in
          (enable_ret ret, whole (noted_ret enable p ret ∷ ps)))

  -- Behind `gtp_list_find`: `whole` puts the tracepoints before in front.
  unfoldable pub enable_at :
      Bool
      → ℕ
      → ℕ
      → (List Tracepoint → List Tracepoint)
      → List Tracepoint
      → EnableReply × List Tracepoint
  enable_at enable num addr whole [] = (enable_invalid, whole [])
  enable_at enable num addr whole (p ∷ ps) =
      let rest = enable_at enable num addr (λ l. whole (p ∷ l)) ps in
      if p.num == num && p.addr == addr then enable_point enable p ps whole else rest

  abbrev pub behind_num : Bool → List ℕ × ℕ → List Tracepoint → EnableReply × List Tracepoint
  behind_num enable ([], num) ps = (enable_invalid, ps)
  behind_num enable (c ∷ rest, num) ps =
      if c == 58
      then enable_at enable num (hex2ulongest rest).1 (λ l. l) ps
      else (enable_invalid, ps)

  -- `gtp_gdbrsp_qtenable_qtdisable`
  unfoldable pub qtenable_qtdisable :
      List ℕ → Bool → List Tracepoint → EnableReply × List Tracepoint
  unfolding enable_at
  qtenable_qtdisable pkg enable ps = behind_num enable (hex2ulongest pkg) ps
