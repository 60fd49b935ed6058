-- ===== src/Ring/Alloc.antt =====
-- gtp_rb.c, `gtp_rb_alloc`: where the bytes lie that it gives out.
use kgtp.Base.{
  ℕ, ◌+◌, ◌%◌, ◌^◌, ◌≤◌, ◌≡◌, refl, arith, Bool, true, Option, none, some, if◌then◌else◌, leb, ltb,
  ◌==◌, if-elim,
}
use mathlib.Core.Path.{subst}
use kgtp.Ring.Bytes.{store}
use kgtp.Ring.Pages.{Rb, head, data_begin, page_end, frame_align, data_max, get_next}
use kgtp.Ring.Write.{
  alloc_max, end_page, begin_page, enter_page, next_page, take_bytes, take_or_fail, alloc_aligned,
  alloc,
}
use kgtp.Ring.Linked.{Linked-store}
use kgtp.Ring.Inv.{IsRing, neighbour}

-- The ring is in order, and what is given out is `size` bytes in the data part of one page, up to
-- `w`.
abbrev pub Grants : (ℕ → Type 0) → ℕ → Option ℕ × Rb → Type 0
Grants IsPage size (none, rb) = IsRing IsPage rb
Grants IsPage size (some p, rb) =
    IsRing IsPage rb
    × (data_begin p ≤ p)
    × (p + size ≤ page_end p)
    × (rb.w ≡ p + size)
    × (head rb.w ≡ head p)

module _ (IsPage : ℕ → Type 0) where
  -- The mark at the end of a page is behind its entries, and no link.
  pub marked_end-IsRing :
      (rb : Rb)
      → IsRing IsPage rb
      → leb 4 (alloc_max rb) ≡ true
      → IsRing IsPage (record rb { mem = store 4 rb.mem rb.w 6 })
  marked_end-IsRing rb i e = record {
    linked =
        Linked-store IsPage 4 rb.mem rb.w 6 (head rb.w) i.w_page i.w_low
          (ground (arith, i.w_low, i.w_high)) i.linked;
    w_page = i.w_page;
    w_low = i.w_low;
    w_high = i.w_high;
    r_page = i.r_page;
  }

  end_page-IsRing : (rb : Rb) → IsRing IsPage rb → IsRing IsPage (end_page rb)
  end_page-IsRing rb i =
      if-elim (IsRing IsPage) (leb 4 (alloc_max rb)) (record rb { mem = store 4 rb.mem rb.w 6 }) rb
        (marked_end-IsRing rb i) (λ e. i)

  -- `w` at the first byte of the data of a page.
  record AtStart (rb : Rb) : Type 0 where
    ring : IsRing IsPage rb
    at_data : rb.w ≡ data_begin rb.w

  -- And behind what may stand at the start of a page.
  record Entered (rb : Rb) : Type 0 where
    ring : IsRing IsPage rb
    room : rb.w ≤ data_begin rb.w + 12

  begin_page-Entered : (id : ℕ) (rb : Rb) → AtStart rb → Entered (begin_page id rb)
  begin_page-Entered id rb s =
      if-elim Entered (id == 0) _ _ (λ e. record { ring = i; room = omega (arith, s.at_data) })
        (λ e. record { ring = begun; room = omega (arith, s.at_data) })
    where
      i : IsRing IsPage rb
      i = s.ring

      begun :
          IsRing IsPage
            (record rb { mem = store 8 (store 4 rb.mem rb.w 5) (rb.w + 4) id; w = rb.w + 12 })
      begun = record {
        linked =
            Linked-store IsPage 8 _ (rb.w + 4) id (head rb.w) i.w_page (omega (arith, s.at_data))
              (omega (arith, s.at_data))
              (Linked-store IsPage 4 rb.mem rb.w 5 (head rb.w) i.w_page i.w_low
                (omega (arith, s.at_data)) i.linked);
        w_page = subst IsPage (omega (arith, s.at_data)) i.w_page;
        w_low = omega (arith, s.at_data);
        w_high = omega (arith, s.at_data);
        r_page = i.r_page;
      }

  enter_page-Entered : (id : ℕ) (rb : Rb) → IsRing IsPage rb → Entered (enter_page id rb)
  enter_page-Entered id rb i =
      let n = neighbour IsPage rb.mem rb.w i.linked i.w_page in
      begin_page-Entered id (record rb { w = get_next rb.mem rb.w })
        (record {
          ring = record {
            linked = i.linked;
            w_page = subst IsPage (omega (arith, n.next, n.behind_place)) n.behind_page;
            w_low = omega (arith, n.next, n.behind_place);
            w_high = omega (arith, n.next, n.behind_place);
            r_page = i.r_page;
          };
          at_data = omega (arith, n.next, n.behind_place);
        })

  take_bytes-Grants :
      (size : ℕ) (rb : Rb)
      → IsRing IsPage rb
      → rb.w + size ≤ page_end rb.w
      → Grants IsPage size (take_bytes size rb)
  take_bytes-Grants size rb i fits = (
    record {
      linked = i.linked;
      w_page = subst IsPage (omega (arith, fits, i.w_low)) i.w_page;
      w_low = omega (arith, fits, i.w_low);
      w_high = omega (arith, fits, i.w_low);
      r_page = i.r_page;
    },
    i.w_low,
    fits,
    refl,
    omega (arith, fits, i.w_low),
  )

  Entered-Grants :
      (size : ℕ) (rb : Rb) → size ≤ 4068 → Entered rb → Grants IsPage size (take_bytes size rb)
  Entered-Grants size rb small e = take_bytes-Grants size rb e.ring (omega (arith, e.room, small))

  -- The reader may be moved to the page behind its own.
  pub reader_moved :
      (rb : Rb) (d : ℕ)
      → IsRing IsPage rb
      → IsRing IsPage (record rb { r = get_next rb.mem rb.r; discarded = d })
  reader_moved rb d i =
      let n = neighbour IsPage rb.mem rb.r i.linked i.r_page in
      record {
        linked = i.linked;
        w_page = i.w_page;
        w_low = i.w_low;
        w_high = i.w_high;
        r_page = subst IsPage (omega (arith, n.next, n.behind_place)) n.behind_page;
      }

  -- The next page is entered, or there is none.
  Advances : Option Rb → Type 0
  Advances none = Unit
  Advances (some rb) = Entered rb

  next_page-Advances :
      (circular : Bool) (id : ℕ) (rb : Rb) → IsRing IsPage rb → Advances (next_page circular id rb)
  unfolding Advances
  next_page-Advances circular id rb i =
      let moved = record rb { r = get_next rb.mem rb.r; discarded = (rb.discarded + 1) % 2 ^ 32 } in
      let far = some (enter_page id moved) in
      if-elim Advances (head (get_next rb.mem rb.w) == head rb.r) (if circular then far else none)
        (some (enter_page id rb))
        (λ e.
          if-elim Advances circular far none
            (λ c. enter_page-Entered id moved (reader_moved rb moved.discarded i)) (λ c. tt))
        (λ e. enter_page-Entered id rb i)

  take_or_fail-Grants :
      (size : ℕ) (o : Option Rb) (rb : Rb)
      → size ≤ 4068
      → IsRing IsPage rb
      → Advances o
      → Grants IsPage size (take_or_fail size o rb)
  unfolding take_or_fail Advances
  take_or_fail-Grants size none rb small i a = i
  take_or_fail-Grants size (some rb') rb small i a = Entered-Grants size rb' small a

  next_page-Grants :
      (circular : Bool) (size id : ℕ) (rb : Rb)
      → size ≤ 4068
      → IsRing IsPage rb
      → Grants IsPage size (take_or_fail size (next_page circular id rb) rb)
  next_page-Grants circular size id rb small i =
      take_or_fail-Grants size (next_page circular id rb) rb small i
        (next_page-Advances circular id rb i)

  pub marked : (rb : Rb) → IsRing IsPage rb → IsRing IsPage (record rb { prev_w = rb.w })
  marked rb i = record {
    linked = i.linked;
    w_page = i.w_page;
    w_low = i.w_low;
    w_high = i.w_high;
    r_page = i.r_page;
  }

  aligned-Grants :
      (circular : Bool) (size id : ℕ) (rb : Rb)
      → size ≤ 4068
      → IsRing IsPage rb
      → Grants IsPage size (alloc_aligned circular size id rb)
  unfolding alloc_aligned
  aligned-Grants circular size id rb small i =
      if-elim (Grants IsPage size) (ltb (page_end rb.w) (rb.w + size))
        (take_or_fail size (next_page circular id (end_page rb)) (end_page rb)) (take_bytes size rb)
        (λ f. next_page-Grants circular size id (end_page rb) small (end_page-IsRing rb i))
        (λ f. take_bytes-Grants size rb i (ground arith))

  -- `gtp_rb_alloc` on a ring in order. The ring stays in order, with the same pages, whatever it
  -- returns; and where it returns an address, the bytes of the aligned size from there on are in
  -- the data part of one page, with `w` behind them.
  pub alloc-Grants :
      (circular : Bool) (size id : ℕ) (rb : Rb)
      → IsRing IsPage rb
      → Grants IsPage (frame_align size) (alloc circular size id rb)
  unfolding alloc
  alloc-Grants circular size id rb i =
      let n = frame_align size in
      let rb₁ = record rb { prev_w = rb.w } in
      if-elim (Grants IsPage n) (ltb data_max n) (none, rb) (alloc_aligned circular n id rb₁)
        (λ e. i) (λ e. aligned-Grants circular n id rb₁ (ground arith) (marked rb i))
