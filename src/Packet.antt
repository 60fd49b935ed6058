-- ===== src/Packet.antt =====
-- gtp.c, the tracepoints that the remote protocol sets up: `struct gtp_entry` and the lists of it,
-- and the allocations behind them. A string is the list of its bytes without the NUL at its end.
use kgtp.Base.{
  ℕ, ◌+◌, Bool, true, false, Option, none, some, List, [], ◌∷◌, ◌++◌, ◌==◌, ◌&&◌, if◌then◌else◌,
  length,
}
pub mod Entries
pub mod Qtdp
pub mod Keys
pub mod Unique
pub mod Again
pub mod Ends
pub mod Only
pub mod FreedTwice
mod Tests

-- `struct action` by its type, with the blocks of memory that it owns. The register is a word.
pub data Body : Type 0 where
  collect : (regnum offset size : ℕ) → Body
  regs : ℕ → Body
  expression : List ℕ → ℕ → Body

pub record Act : Type 0 where
  pub block : ℕ
  pub body : Body

-- `struct gtp_entry`
pub record Entry : Type 0 where
  pub num : ℕ
  pub addr : ℕ
  pub pid : ℕ
  pub disable : Bool
  pub step : ℕ
  pub pass : ℕ
  pub have_pass : Bool
  pub cond : Option Act
  pub action_list : List Act
  pub step_action_list : List Act
  pub action_cmd : List (List ℕ)
  pub src : List (List ℕ)

-- `gtp_start`, `gtp_list`, the addresses of `gtp_disable_list`, `gtp_have_step` and
-- `gtp_current_pid`. `allocs` counts the allocations, which number the blocks of memory, and
-- `freed` has the blocks that `kfree` has been called with, the last one first.
pub record Session : Type 0 where
  pub started : Bool
  pub entries : List Entry
  pub disabled : List ℕ
  pub have_step : Bool
  pub current_pid : ℕ
  pub allocs : ℕ
  pub freed : List ℕ

-- What a command returns: 0, the errors, and 1 for what is not supported.
pub data Reply : Type 0 where
  reply_ok reply_busy reply_invalid reply_no_memory reply_unsupported : Reply

-- `kmalloc` and `kzalloc`, where `succeeds` says which allocations succeed.
unfoldable pub alloc : (ℕ → Bool) → Session → Option ℕ × Session
alloc succeeds st =
    let st' = record st { allocs = st.allocs + 1 } in
    if succeeds st.allocs then (some st.allocs, st') else (none, st')

-- `kfree`
abbrev pub free : ℕ → Session → Session
free b st = record st { freed = b ∷ st.freed }

-- What an action owns, and the action itself
abbrev pub release_body : ℕ → Body → Session → Session
release_body b (expression bytes buf) st = free b (free buf st)
release_body b (collect regnum offset size) st = free b st
release_body b (regs mask) st = free b st

-- `gtp_action_release`
unfoldable pub action_release : Act → Session → Session
action_release a st = release_body a.block a.body st
