-- ===== src/Ring/Setup.antt =====
-- gtp_rb.c, `gtp_rb_page_alloc` for one processor, and what `gtp_rb_reset` does to its ring.
use kgtp.Base.{ℕ, zero, suc, ◌+◌, ◌-◌, Option, none, some, ltb, ◌==◌, if◌then◌else◌}
use kgtp.Ring.Bytes.{Memory}
use kgtp.Ring.Pages.{Rb, data_begin, set_prev, set_next}

-- The local variables of the loop with `rb->w`; 0 is NULL, and `count` is `gtp_rb_page_count`.
pub record Setup : Type 0 where
  pub mem : Memory
  pub w : ℕ
  pub last : ℕ
  pub next : ℕ
  pub count : ℕ

-- A round, with the page that has been allocated.
unfoldable pub add_page : ℕ → Setup → Setup
add_page page s =
    let w = data_begin page in
    let m = set_next s.mem w s.next in
    record {
      mem = if s.next == 0 then m else set_prev m s.next w;
      w = w;
      last = if s.last == 0 then w else s.last;
      next = w;
      count = s.count + 1;
    }

-- `NEXT(last) = next`, `PREV(next) = last` and `rb->r = rb->w`, then the test of the number of pages.
unfoldable pub close_ring : Rb → Setup → Option Rb
close_ring rb s =
    if ltb s.count 3
    then none
    else some (record rb {
      mem = set_prev (set_next s.mem s.last s.next) s.next s.last;
      w = s.w;
      r = s.w;
    })

module _ (alloc_page : ℕ → Option ℕ) where
  -- The loop; `alloc_page` is told the number of pages before this one. `none` is an allocation
  -- that fails, and too little fuel.
  unfoldable pub page_loop : ℕ → ℕ → Setup → Option Setup
  page_loop zero size s = none
  page_loop (suc fuel) size s =
      let more : Option ℕ → Option Setup =
        λ o. elim o [ none ↦ none | some page ↦ page_loop fuel (size - 4096) (add_page page s) ] in
      if ltb 0 size then more (alloc_page s.count) else some s

  unfoldable pub close_or_fail : Rb → Option Setup → Option Rb
  unfolding close_ring
  close_or_fail rb none = none
  close_or_fail rb (some s) = close_ring rb s

  -- `gtp_rb_page_alloc`, with the memory before
  unfoldable pub page_alloc : ℕ → Rb → Option Rb
  unfolding close_or_fail page_loop
  page_alloc size rb =
      close_or_fail rb (
        page_loop (suc size) size
          (record { mem = rb.mem; w = rb.w; last = 0; next = 0; count = 0 }))

-- `gtp_rb_reset`
unfoldable pub reset : Rb → Rb
reset rb = record rb {
  w = data_begin rb.w;
  r = data_begin rb.w;
  rp = 0;
  rp_id = 0;
  prev_frame = 0;
  discarded = 0;
}
