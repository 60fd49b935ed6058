-- ===== src/Ring/Exchange.antt =====
-- gtp_rb.c, `gtp_rb_get_page` and `gtp_rb_put_page`: a page leaves the ring to be read, and comes
-- back.
use mathlib.Core.Path.{subst}
use kgtp.Base.{
  ℕ, ◌+◌, ◌-◌, ◌≡◌, ◌≢◌, refl, sym, ap, ◌∙◌, ◌⊎◌, inr, arith, true, Option, none, some, leb, ◌==◌,
  if◌then◌else◌, if-elim,
}
use kgtp.Ring.Bytes.{load, store, load-store_apart}
use kgtp.Ring.Pages.{Rb, head, data_begin, page_end, get_next}
use kgtp.Ring.Write.{alloc_max, end_page, unlink, get_page}
use kgtp.Ring.Linked.{Linked}
use kgtp.Ring.Surgery.{join, unlink-Linked}
use kgtp.Ring.Inv.{IsRing, neighbour, join-eq}
use kgtp.Ring.Alloc.{marked_end-IsRing}

-- The pages without the one of `x`, and with it.
abbrev pub Without : (ℕ → Type 0) → ℕ → ℕ → Type 0
Without IsPage x h = IsPage h × (h ≢ head x)

abbrev pub With : (ℕ → Type 0) → ℕ → ℕ → Type 0
With IsPage x h = IsPage h ⊎ (h ≡ head x)

-- No page is taken where the reader has met the writer; else it is that of the reader.
abbrev pub Takes : (ℕ → Type 0) → Rb → Option ℕ × Rb → Type 0
Takes IsPage rb (none, rb') = (rb' ≡ rb) × (rb.r ≡ rb.w)
Takes IsPage rb (some p, rb') = (p ≡ rb.r) × IsRing (Without IsPage rb.r) rb'

module _ (IsPage : ℕ → Type 0) where
  unlink-IsRing :
      (rb : Rb)
      → IsRing IsPage rb
      → head rb.w ≢ head rb.r
      → get_next rb.mem rb.r ≢ data_begin rb.r
      → IsRing (Without IsPage rb.r) (unlink rb)
  unlink-IsRing rb i apart many =
      let n = neighbour IsPage rb.mem rb.r i.linked i.r_page in
      let p = head rb.r in
      let two : p ≢ n.behind = λ e. many (n.next ∙ ap (λ x. x + 8) (sym e)) in
      let same : (unlink rb).mem ≡ join rb.mem n.before n.behind (n.behind + 8) (n.before + 8) =
        rw (n.prev, n.next)
          (join-eq rb.mem n.before n.behind (n.behind + 8) (n.before + 8) n.before_place.0
            n.behind_place.0) in
      let r' : n.behind ≡ head (get_next rb.mem rb.r) = omega (arith, n.next, n.behind_place) in
      record {
        linked = subst (Linked (Without IsPage rb.r)) (sym same) (
            unlink-Linked IsPage rb.mem n.before p n.behind i.linked n.before_page i.r_page
              n.behind_page n.from n.to two);
        w_page = (i.w_page, apart);
        w_low = i.w_low;
        w_high = i.w_high;
        r_page = subst (Without IsPage rb.r) r' (n.behind_page, λ e. two (sym e));
      }

  pub marked_end-next :
      (rb : Rb) (x : ℕ)
      → IsRing IsPage rb
      → head x ≡ head rb.w
      → leb 4 (alloc_max rb) ≡ true
      → get_next (store 4 rb.mem rb.w 6) x ≡ get_next rb.mem x
  marked_end-next rb x i same e =
      load-store_apart 8 4 rb.mem (page_end x) rb.w 6
        (inr (ground (arith, same, i.w_low, i.w_high)))

  -- `rb->w = GTP_RB_NEXT(rb->w)`
  writer_moved :
      (rb : Rb) → IsRing IsPage rb → IsRing IsPage (record rb { w = get_next rb.mem rb.w })
  writer_moved rb i =
      let n = neighbour IsPage rb.mem rb.w i.linked i.w_page in
      record {
        linked = i.linked;
        w_page = subst IsPage (omega (arith, n.next, n.behind_place)) n.behind_page;
        w_low = omega (arith, n.next, n.behind_place);
        w_high = omega (arith, n.next, n.behind_place);
        r_page = i.r_page;
      }

  left_page :
      (rb : Rb)
      → IsRing IsPage rb
      → head rb.r ≡ head rb.w
      → get_next rb.mem rb.r ≢ data_begin rb.r
      → IsRing (Without IsPage rb.r) (unlink (record rb { w = get_next rb.mem rb.w }))
  left_page rb i same many =
      let n = neighbour IsPage rb.mem rb.w i.linked i.w_page in
      let next : get_next rb.mem rb.r ≡ get_next rb.mem rb.w =
        ap (λ h. load 8 rb.mem (h + 4096 - 8)) same in
      unlink-IsRing (record rb { w = get_next rb.mem rb.w }) (writer_moved rb i)
        (λ e. many (next ∙ omega (arith, n.next, n.behind_place, e))) many

  -- The writer leaves the page that is taken, which it has marked as ended.
  shared_page :
      (rb : Rb)
      → IsRing IsPage rb
      → head rb.r ≡ head rb.w
      → get_next rb.mem rb.r ≢ data_begin rb.r
      → let rb₁ = end_page rb in
        IsRing (Without IsPage rb.r) (unlink (record rb₁ { w = get_next rb₁.mem rb₁.w }))
  shared_page rb i same many =
      if-elim
        (λ (x : Rb). IsRing (Without IsPage rb.r) (unlink (record x { w = get_next x.mem x.w })))
        (leb 4 (alloc_max rb)) (record rb { mem = store 4 rb.mem rb.w 6 }) rb
        (λ e.
          left_page (record rb { mem = store 4 rb.mem rb.w 6 }) (marked_end-IsRing IsPage rb i e)
            same (λ f. many (sym (marked_end-next rb rb.r i same e) ∙ f)))
        (λ e. left_page rb i same many)

  -- `gtp_rb_get_page` on a ring in order of more than one page: where the reader has met the writer
  -- nothing is taken and nothing changes; else the result is the reader's address, and the other
  -- pages are a ring in order.
  pub get_page-Takes :
      (rb : Rb)
      → IsRing IsPage rb
      → get_next rb.mem rb.r ≢ data_begin rb.r
      → Takes IsPage rb (get_page rb)
  unfolding get_page
  get_page-Takes rb i many =
      let rb₁ = end_page rb in
      let left : Option ℕ × Rb = (some rb.r, unlink (record rb₁ { w = get_next rb₁.mem rb₁.w })) in
      let met : Option ℕ × Rb = (none, rb) in
      if-elim (Takes IsPage rb) (head rb.r == head rb.w) (if rb.r == rb.w then met else left)
        (some rb.r, unlink rb)
        (λ e.
          if-elim (Takes IsPage rb) (rb.r == rb.w) met left (λ f. (refl, ground arith))
            (λ f. (refl, shared_page rb i (ground arith) many)))
        (λ e. (refl, unlink-IsRing rb i (ground arith) many))
