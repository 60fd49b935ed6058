-- ===== src/Ring/Pages.antt =====
-- gtp_rb.c, a page of the ring buffer and `struct gtp_rb_s`. A page is 4096 bytes: eight for the link
-- to the page before it, the trace frames, and eight for the link to the page behind it.
use kgtp.Base.{ℕ, ◌+◌, ◌-◌, ◌*◌, ◌/◌, ◌%◌, ◌^◌}
use kgtp.Ring.Bytes.{Memory, load, store}

-- `GTP_RB_HEAD`, `GTP_RB_DATA` and `GTP_RB_END`
abbrev pub head : ℕ → ℕ
head addr = addr / 4096 * 4096

abbrev pub data_begin : ℕ → ℕ
data_begin addr = head addr + 8

abbrev pub page_end : ℕ → ℕ
page_end addr = head addr + 4096 - 8

-- `FRAME_ALIGN`
abbrev pub frame_align : ℕ → ℕ
frame_align x = (x + 3) % 2 ^ 64 / 4 * 4

-- `GTP_RB_DATA_MAX`, with an `unsigned int` for FID_TYPE
abbrev pub data_max : ℕ
data_max = 4096 - 8 - 8 - 4 - 8

-- The FID of each kind of entry.
abbrev pub fid_head : ℕ
fid_head = 0

abbrev pub fid_reg : ℕ
fid_reg = 1

abbrev pub fid_mem : ℕ
fid_mem = 2

abbrev pub fid_var : ℕ
fid_var = 3

abbrev pub fid_page_begin : ℕ
fid_page_begin = 5

abbrev pub fid_page_end : ℕ
fid_page_end = 6

-- `GTP_FRAME_PAGE_BEGIN_SIZE`
abbrev pub page_begin_size : ℕ
page_begin_size = 4 + 8

-- `GTP_RB_PREV` and `GTP_RB_NEXT`, read and written
abbrev pub get_prev : Memory → ℕ → ℕ
get_prev m addr = load 8 m (head addr)

abbrev pub get_next : Memory → ℕ → ℕ
get_next m addr = load 8 m (page_end addr)

abbrev pub set_prev : Memory → ℕ → ℕ → Memory
set_prev m addr v = store 8 m (head addr) v

abbrev pub set_next : Memory → ℕ → ℕ → Memory
set_next m addr v = store 8 m (page_end addr) v

-- `struct gtp_rb_s` with the memory behind it, and `gtp_rb_discard_page_number`.
pub record Rb : Type 0 where
  pub mem : Memory
  pub prev_frame : ℕ
  pub w : ℕ
  pub prev_w : ℕ
  pub r : ℕ
  pub rp : ℕ
  pub rp_id : ℕ
  pub discarded : ℕ

-- The difference of two pointers as a `size_t`.
abbrev pub pointer_sub : ℕ → ℕ → ℕ
pointer_sub a b = (a + 2 ^ 64 - b % 2 ^ 64) % 2 ^ 64
