-- ===== src/Ring/Unread.antt =====
-- gtp_rb.c, `gtp_rb_alloc` where `gtp_circular` is not set, and the bytes that it does not write.
use kgtp.Base.{
  ℕ, ◌+◌, ◌≤◌, ◌<◌, ◌≡◌, ◌≢◌, refl, ap, ◌∙◌, ◌⊎◌, arith, false, Option, none, some, leb, ltb, ◌==◌,
  if-elim,
}
use kgtp.Ring.Bytes.{Memory, store, store-outside}
use kgtp.Ring.Pages.{Rb, head, data_begin, page_end, frame_align, data_max, get_next}
use kgtp.Ring.Write.{
  alloc_max, end_page, begin_page, enter_page, next_page, take_bytes, take_or_fail, alloc_aligned,
  alloc,
}
use kgtp.Ring.Inv.{IsRing, neighbour}
use kgtp.Ring.Alloc.{marked_end-IsRing, marked}
use kgtp.Ring.Exchange.{marked_end-next}

-- The byte at `x` is as in `m`.
abbrev Keeps : Memory → ℕ → Option ℕ × Rb → Type 0
Keeps m x (o, rb) = rb.mem x ≡ m x

module _ (x : ℕ) where
  begin_page-Keeps :
      (id : ℕ) (rb : Rb)
      → head x ≢ head rb.w
      → rb.w ≡ data_begin rb.w
      → (begin_page id rb).mem x ≡ rb.mem x
  begin_page-Keeps id rb far start =
      if-elim (λ (y : Rb). y.mem x ≡ rb.mem x) (id == 0) rb
        (record rb { mem = store 8 (store 4 rb.mem rb.w 5) (rb.w + 4) id; w = rb.w + 12 })
        (λ e. refl)
        (λ e.
          store-outside 8 (store 4 rb.mem rb.w 5) (rb.w + 4) id x (omega (arith, far, start))
          ∙ store-outside 4 rb.mem rb.w 5 x (omega (arith, far, start)))

  module _ (IsPage : ℕ → Type 0) where
    next_page-Keeps :
        (size id : ℕ) (m : Memory) (rb : Rb)
        → IsRing IsPage rb
        → (head x ≡ head (get_next rb.mem rb.w) → head x ≡ head rb.r)
        → rb.mem x ≡ m x
        → Keeps m x (take_or_fail size (next_page false id rb) rb)
    unfolding take_or_fail
    next_page-Keeps size id m rb i unread same =
        let n = neighbour IsPage rb.mem rb.w i.linked i.w_page in
        let start : get_next rb.mem rb.w ≡ data_begin (get_next rb.mem rb.w) =
          omega (arith, n.next, n.behind_place) in
        if-elim (λ o. Keeps m x (take_or_fail size o rb)) (head (get_next rb.mem rb.w) == head rb.r)
          none (some (enter_page id rb)) (λ e. same)
          (λ e.
            begin_page-Keeps id (record rb { w = get_next rb.mem rb.w })
              (λ f. absurd (ground (arith, unread f, f))) start
            ∙ same)

    end_page-Keeps :
        (size id : ℕ) (rb : Rb)
        → IsRing IsPage rb
        → (x < rb.w) ⊎ (page_end rb.w ≤ x)
        → (head x ≡ head (get_next rb.mem rb.w) → head x ≡ head rb.r)
        → Keeps rb.mem x (take_or_fail size (next_page false id (end_page rb)) (end_page rb))
    end_page-Keeps size id rb i out unread =
        let marked = store 4 rb.mem rb.w 6 in
        if-elim (λ (y : Rb). Keeps rb.mem x (take_or_fail size (next_page false id y) y))
          (leb 4 (alloc_max rb)) (record rb { mem = marked }) rb
          (λ e.
            let same = marked_end-next IsPage rb rb.w i refl e in
            next_page-Keeps size id rb.mem (record rb { mem = marked })
              (marked_end-IsRing IsPage rb i e) (λ f. unread (f ∙ ap (λ a. head a) same))
              (store-outside 4 rb.mem rb.w 6 x (ground (arith, i.w_low, i.w_high, out))))
          (λ e. next_page-Keeps size id rb.mem rb i unread refl)

    aligned-Keeps :
        (size id : ℕ) (rb : Rb)
        → IsRing IsPage rb
        → (x < rb.w) ⊎ (page_end rb.w ≤ x)
        → (head x ≡ head (get_next rb.mem rb.w) → head x ≡ head rb.r)
        → Keeps rb.mem x (alloc_aligned false size id rb)
    unfolding alloc_aligned
    aligned-Keeps size id rb i out unread =
        if-elim (Keeps rb.mem x) (ltb (page_end rb.w) (rb.w + size))
          (take_or_fail size (next_page false id (end_page rb)) (end_page rb)) (take_bytes size rb)
          (λ e. end_page-Keeps size id rb i out unread) (λ e. refl)

    -- Where `gtp_circular` is not set, `gtp_rb_alloc` on a ring in order keeps every byte that is not
    -- behind `w` in its page, and not in the page behind that one, unless that page is the reader's.
    pub alloc-keeps :
        (size id : ℕ) (rb : Rb)
        → IsRing IsPage rb
        → (x < rb.w) ⊎ (page_end rb.w ≤ x)
        → (head x ≡ head (get_next rb.mem rb.w) → head x ≡ head rb.r)
        → (alloc false size id rb).1.mem x ≡ rb.mem x
    unfolding alloc
    alloc-keeps size id rb i out unread =
        let n = frame_align size in
        let rb₁ = record rb { prev_w = rb.w } in
        if-elim (Keeps rb.mem x) (ltb data_max n) (none, rb) (alloc_aligned false n id rb₁)
          (λ e. refl) (λ e. aligned-Keeps n id rb₁ (marked IsPage rb i) out unread)
