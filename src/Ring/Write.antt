-- ===== src/Ring/Write.antt =====
-- gtp_rb.c, the writer and the exchange of pages: `gtp_rb_alloc`, `gtp_rb_alloc_max`,
-- `GTP_RB_RELEASE`, `gtp_rb_get_page` and `gtp_rb_put_page`.
use kgtp.Base.{ℕ, ◌+◌, ◌%◌, ◌^◌, Bool, Option, none, some, ltb, leb, ◌==◌, if◌then◌else◌}
use kgtp.Ring.Bytes.{Memory, store}
use kgtp.Ring.Pages.{
  Rb, head, data_begin, page_end, frame_align, data_max, fid_page_begin, fid_page_end,
  page_begin_size, get_prev, get_next, set_prev, set_next, pointer_sub,
}

-- `GTP_RB_RELEASE`
abbrev pub release_frame : Rb → Rb
release_frame rb = record rb { w = rb.prev_w }

-- `gtp_rb_alloc_max`
abbrev pub alloc_max : Rb → ℕ
alloc_max rb = pointer_sub (page_end rb.w) rb.w

-- `if (GTP_RB_END(rb->w) - rb->w >= FID_SIZE) FID(rb->w) = FID_PAGE_END;`
abbrev pub end_page : Rb → Rb
end_page rb =
    if leb 4 (alloc_max rb) then record rb { mem = store 4 rb.mem rb.w fid_page_end } else rb

-- `FID(rb->w) = FID_PAGE_BEGIN`, and the id behind it
abbrev pub begin_page : ℕ → Rb → Rb
begin_page id rb = if id == 0 then rb else record rb {
  mem = store 8 (store 4 rb.mem rb.w fid_page_begin) (rb.w + 4) id;
  w = rb.w + frame_align page_begin_size;
}

-- `rb->w = GTP_RB_NEXT(rb->w)` with what follows it
abbrev pub enter_page : ℕ → Rb → Rb
enter_page id rb = begin_page id (record rb { w = get_next rb.mem rb.w })

-- The page behind `w` is to be written next. Where the reader is on it, its entries are given up
-- if `gtp_circular` is set, and `none` is the `return NULL` if it is not.
abbrev pub next_page : Bool → ℕ → Rb → Option Rb
next_page circular id rb =
    if head (get_next rb.mem rb.w) == head rb.r
    then (if circular
        then some (
            enter_page id
              (record rb { r = get_next rb.mem rb.r; discarded = (rb.discarded + 1) % 2 ^ 32 }))
        else none)
    else some (enter_page id rb)

-- `ret = rb->w; rb->w += size;`
abbrev pub take_bytes : ℕ → Rb → Option ℕ × Rb
take_bytes size rb = (some rb.w, record rb { w = rb.w + size })

unfoldable pub take_or_fail : ℕ → Option Rb → Rb → Option ℕ × Rb
take_or_fail size none rb = (none, rb)
take_or_fail size (some rb') rb = take_bytes size rb'

-- `gtp_rb_alloc` behind the test of `size`, which is aligned.
unfoldable pub alloc_aligned : Bool → ℕ → ℕ → Rb → Option ℕ × Rb
unfolding take_or_fail
alloc_aligned circular size id rb =
    if ltb (page_end rb.w) (rb.w + size)
    then take_or_fail size (next_page circular id (end_page rb)) (end_page rb)
    else take_bytes size rb

-- `gtp_rb_alloc`
unfoldable pub alloc : Bool → ℕ → ℕ → Rb → Option ℕ × Rb
unfolding alloc_aligned
alloc circular size id rb =
    if ltb data_max (frame_align size)
    then (none, rb)
    else alloc_aligned circular (frame_align size) id (record rb { prev_w = rb.w })

-- The page of `r` leaves the ring.
abbrev pub unlink : Rb → Rb
unlink rb =
    let prev = get_prev rb.mem rb.r in
    let next = get_next rb.mem rb.r in
    record rb { mem = set_prev (set_next rb.mem prev next) next prev; r = next }

-- `gtp_rb_get_page`
unfoldable pub get_page : Rb → Option ℕ × Rb
get_page rb =
    if head rb.r == head rb.w
    then (if rb.r == rb.w
        then (none, rb)
        else let rb₁ = end_page rb in
          (some rb.r, unlink (record rb₁ { w = get_next rb₁.mem rb₁.w })))
    else (some rb.r, unlink rb)

-- The four links that `gtp_rb_put_page` writes.
abbrev pub link : Memory → ℕ → ℕ → ℕ → Memory
link m prev page next =
    let m₁ = set_next m prev (data_begin page) in
    let m₂ = set_prev m₁ next (data_begin page) in set_next (set_prev m₂ page prev) page next

-- `gtp_rb_put_page` for a page that has been read to its end
unfoldable pub put_empty : ℕ → Rb → Rb
put_empty page rb =
    if rb.w == data_begin rb.w
    then record rb {
      mem = link rb.mem (get_prev rb.mem rb.w) page rb.w;
      r = if rb.r == rb.w then page else rb.r;
      w = page;
    }
    else record rb { mem = link rb.mem (data_begin rb.w) page (get_next rb.mem rb.w) }

-- `gtp_rb_put_page` for a page with entries that have not been read
unfoldable pub put_full : ℕ → Rb → Rb
put_full page rb =
    if rb.r == data_begin rb.r
    then record rb { mem = link rb.mem (get_prev rb.mem rb.r) page rb.r; r = page }
    else record rb { mem = link rb.mem (data_begin rb.r) page (get_next rb.mem rb.r); r = page }

-- `gtp_rb_put_page`
unfoldable pub put_page : ℕ → Bool → Rb → Rb
unfolding put_empty put_full
put_page page is_empty rb = if is_empty then put_empty (data_begin page) rb else put_full page rb
