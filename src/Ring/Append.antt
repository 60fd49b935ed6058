-- ===== src/Ring/Append.antt =====
-- gtp_rb.c, `gtp_rb_alloc` against `gtp_rb_walk`: where an entry lies that is given out, and how a
-- walk comes to it from where `w` was.
use kgtp.Base.{
  ℕ, ◌+◌, ◌%◌, ◌^◌, ◌≤◌, ◌<◌, ◌≡◌, ◌≢◌, refl, sym, ap, ◌∙◌, ◌⊎◌, inl, inr, arith, Bool, false,
  Option, none, some, ltb, leb, ◌==◌, if◌then◌else◌, if-elim,
}
use mathlib.Core.Path.{subst}
use kgtp.Ring.Bytes.{Memory, load, store, load-store_apart, load-store_same, limit}
use kgtp.Ring.Pages.{Rb, head, data_begin, page_end, frame_align, data_max, get_next}
use kgtp.Ring.Write.{
  alloc, alloc_aligned, alloc_max, take_or_fail, take_bytes, next_page, enter_page, end_page,
}
use kgtp.Ring.Alloc.{marked, marked_end-IsRing, reader_moved}
use kgtp.Ring.Exchange.{marked_end-next}
use kgtp.Ring.Walk.{WalkArgs}
use kgtp.Ring.Trail.{FrameEntry, mark, Trail, there, entry, over}
use kgtp.Ring.Inv.{IsRing, neighbour}
use kgtp.Ring.Inside.{Inside, load-Inside}

-- The entry is at `p`: where `w` was, or behind the mark of the page behind that one, which begins
-- its data at `q`; then the page of `w` is over at `w`.
pub data Placed (w id p : ℕ) (m : Memory) : Type 0 where
  here : p ≡ w → Placed w id p m
  turned :
      (q : ℕ)
      → get_next m w ≡ q
      → (page_end w < w + 4) ⊎ (load 4 m w ≡ 6)
      → q ≡ data_begin q
      → p ≡ q + 12
      → load 4 m q ≡ 5
      → load 8 m (q + 4) ≡ id
      → head q ≢ head w
      → Placed w id p m

abbrev pub PlacedIf : ℕ → ℕ → Option ℕ × Rb → Type 0
PlacedIf w id (none, rb) = Unit
PlacedIf w id (some p, rb) = Placed w id p rb.mem

-- Where the entry fits in the page of `w`, it lies there.
pub alloc-fits :
    (circular : Bool) (size id : ℕ) (rb : Rb)
    → frame_align size ≤ data_max
    → rb.w + frame_align size ≤ page_end rb.w
    → alloc circular size id rb
      ≡ (some rb.w, record rb { prev_w = rb.w; w = rb.w + frame_align size })
unfolding alloc alloc_aligned
alloc-fits circular size id rb small fits =
    let c₁ : ltb data_max (frame_align size) ≡ false = ground arith in
    let c₂ : ltb (page_end rb.w) (rb.w + frame_align size) ≡ false = ground arith in
    rw (c₁, c₂) refl

module _ (id w q : ℕ) (m : Memory) where
  -- The mark of the next page is written.
  marked-Placed :
      id < 2 ^ 64
      → get_next m w ≡ q
      → q ≡ data_begin q
      → head q ≢ head w
      → data_begin w ≤ w
      → w ≤ page_end w
      → (page_end w < w + 4) ⊎ (load 4 m w ≡ 6)
      → Placed w id (q + 12) (store 8 (store 4 m q 5) (q + 4) id)
  unfolding limit
  marked-Placed wide link start apart low high ends_here =
      let m₁ = store 4 m q 5 in
      let m₂ = store 8 m₁ (q + 4) id in
      let same_link : get_next m₂ w ≡ q =
        load-store_apart 8 8 m₁ (page_end w) (q + 4) id (omega (arith, start, apart))
        ∙ load-store_apart 8 4 m (page_end w) q 5 (omega (arith, start, apart))
        ∙ link in
      let mark : load 4 m₂ q ≡ 5 =
        load-store_apart 4 8 m₁ q (q + 4) id (omega arith)
        ∙ load-store_same 4 m q 5 (omega arith) in
      let noted : load 8 m₂ (q + 4) ≡ id = load-store_same 8 m₁ (q + 4) id (omega (arith, wide)) in
      turned q same_link
        (elim ends_here [
          | inl short ↦ inl short
          | inr ends ↦ elim (room) [
            | inl short ↦ inl short
            | inr wide ↦ inr (
                load-store_apart 4 8 m₁ w (q + 4) id (omega (arith, start, apart, low, wide))
                ∙ load-store_apart 4 4 m w q 5 (omega (arith, start, apart, low, wide))
                ∙ ends)
          ]
        ])
        start refl mark noted apart
    where
      room : (page_end w < w + 4) ⊎ (w + 4 ≤ page_end w)
      room = omega arith

module _ (IsPage : ℕ → Type 0) where
  pub alloc_max-is : (rb : Rb) → IsRing IsPage rb → rb.w + alloc_max rb ≡ page_end rb.w
  alloc_max-is rb i =
      let place = i.linked.place (head rb.w) i.w_page in omega (arith, place, i.w_low, i.w_high)

  module _ (id n : ℕ) (some_id : id ≢ 0) (wide : id < 2 ^ 64) where
    -- The state in which the next page is entered.
    record Turning (rb : Rb) : Type 0 where
      ring : IsRing IsPage rb
      apart : head (get_next rb.mem rb.w) ≢ head rb.w
      over : (page_end rb.w < rb.w + 4) ⊎ (load 4 rb.mem rb.w ≡ 6)

    entered-PlacedIf : (rb : Rb) → Turning rb → PlacedIf rb.w id (take_bytes n (enter_page id rb))
    entered-PlacedIf rb t =
        let q = get_next rb.mem rb.w in
        let b = neighbour IsPage rb.mem rb.w t.ring.linked t.ring.w_page in
        if-elim (λ (y : Rb). Placed rb.w id y.w y.mem) (id == 0) (record rb { w = q })
          (record rb { mem = store 8 (store 4 rb.mem q 5) (q + 4) id; w = q + 12 })
          (λ e. absurd (some_id (ground arith)))
          (λ e.
            marked-Placed id rb.w q rb.mem wide refl (omega (arith, b.next, b.behind_place)) t.apart
              t.ring.w_low t.ring.w_high t.over)

    next-PlacedIf :
        (circular : Bool) (rb : Rb)
        → Turning rb
        → PlacedIf rb.w id (take_or_fail n (next_page circular id rb) rb)
    unfolding take_or_fail
    next-PlacedIf circular rb t =
        let moved : Rb = record rb {
          r = get_next rb.mem rb.r;
          discarded = (rb.discarded + 1) % 2 ^ 32;
        } in
        let turn : Turning moved = record {
          ring = reader_moved IsPage rb moved.discarded t.ring;
          apart = t.apart;
          over = t.over;
        } in
        if-elim (λ o. PlacedIf rb.w id (take_or_fail n o rb))
          (head (get_next rb.mem rb.w) == head rb.r)
          (if circular then some (enter_page id moved) else none) (some (enter_page id rb))
          (λ e.
            if-elim (λ o. PlacedIf rb.w id (take_or_fail n o rb)) circular
              (some (enter_page id moved)) none (λ c. entered-PlacedIf moved turn) (λ c. tt))
          (λ e. entered-PlacedIf rb t)

    ended-PlacedIf :
        (circular : Bool) (rb : Rb)
        → IsRing IsPage rb
        → head (get_next rb.mem rb.w) ≢ head rb.w
        → PlacedIf rb.w id (take_or_fail n (next_page circular id (end_page rb)) (end_page rb))
    unfolding limit
    ended-PlacedIf circular rb i apart =
        let marked = store 4 rb.mem rb.w 6 in
        if-elim (λ (y : Rb). PlacedIf rb.w id (take_or_fail n (next_page circular id y) y))
          (leb 4 (alloc_max rb)) (record rb { mem = marked }) rb
          (λ e.
            let same = marked_end-next IsPage rb rb.w i refl e in
            next-PlacedIf circular (record rb { mem = marked })
              (record {
                ring = marked_end-IsRing IsPage rb i e;
                apart = λ f. apart (ap (λ a. head a) (sym same) ∙ f);
                over = inr (load-store_same 4 rb.mem rb.w 6 (omega arith));
              }))
          (λ e.
            next-PlacedIf circular rb
              (record { ring = i; apart = apart; over = inl (ground (arith, alloc_max-is rb i)) }))

    aligned-PlacedIf :
        (circular : Bool) (rb : Rb)
        → IsRing IsPage rb
        → head (get_next rb.mem rb.w) ≢ head rb.w
        → PlacedIf rb.w id (alloc_aligned circular n id rb)
    unfolding alloc_aligned
    aligned-PlacedIf circular rb i apart =
        if-elim (PlacedIf rb.w id) (ltb (page_end rb.w) (rb.w + n))
          (take_or_fail n (next_page circular id (end_page rb)) (end_page rb)) (take_bytes n rb)
          (λ e. ended-PlacedIf circular rb i apart) (λ e. here refl)

  -- `gtp_rb_alloc` with the id of a frame.
  pub alloc-PlacedIf :
      (circular : Bool) (size id : ℕ) (rb : Rb)
      → id ≢ 0
      → id < 2 ^ 64
      → IsRing IsPage rb
      → head (get_next rb.mem rb.w) ≢ head rb.w
      → PlacedIf rb.w id (alloc circular size id rb)
  unfolding alloc
  alloc-PlacedIf circular size id rb some_id wide i apart =
      let n = frame_align size in
      let rb₁ = record rb { prev_w = rb.w } in
      if-elim (PlacedIf rb.w id) (ltb data_max n) (none, rb) (alloc_aligned circular n id rb₁)
        (λ e. tt) (λ e. aligned-PlacedIf id n some_id wide circular rb₁ (marked IsPage rb i) apart)

-- From where `w` was, over the entry, to where it is.
module _ (regs_size : ℕ) (s : WalkArgs) (w n p : ℕ) (m m' : Memory) (inside : Inside p (p + n) m m')
    (low : data_begin w ≤ w) (high : w ≤ page_end w) (some_bytes : 4 ≤ n)
    (fits : p + n ≤ page_end p) (start : data_begin p ≤ p) (at_last : s.last ≡ p + n)
    (e : FrameEntry regs_size m' s p n) where
  last_entry : Trail regs_size m' s (page_end (p + n)) (p + n) (page_end p) p 1
  last_entry =
      let same : page_end (p + n) ≡ page_end p = omega (arith, fits, start) in
      entry (omega (arith, at_last, some_bytes)) (omega (arith, fits, some_bytes)) (omega arith) e
        (subst (λ b. Trail regs_size m' s (page_end (p + n)) (p + n) b (p + n) 0) same there)

  turned-Trail :
      (q : ℕ)
      → get_next m w ≡ q
      → (page_end w < w + 4) ⊎ (load 4 m w ≡ 6)
      → q ≡ data_begin q
      → p ≡ q + 12
      → load 4 m q ≡ 5
      → load 8 m (q + 4) ≡ s.id
      → head q ≢ head w
      → Trail regs_size m' s (page_end (p + n)) (p + n) (page_end w) w 3
  turned-Trail q link ends_here begins p_is marked noted apart =
      let linked : get_next m' w ≡ q =
        load-Inside p (p + n) 8 m m' (page_end w) (omega (arith, apart, begins, p_is, fits, start))
          inside
        ∙ link in
      let first : load 4 m' q ≡ 5 = load-Inside p (p + n) 4 m m' q (omega arith) inside ∙ marked in
      let second : load 8 m' (q + 4) ≡ s.id =
        load-Inside p (p + n) 8 m m' (q + 4) (omega arith) inside ∙ noted in
      let ends : (page_end w < w + 4) ⊎ (load 4 m' w ≡ 6) = elim ends_here [
        | inl short ↦ inl short
        | inr over_mark ↦ inr (
            load-Inside p (p + n) 4 m m' w
              (omega (arith, apart, begins, p_is, fits, start, low, high)) inside
            ∙ over_mark)
      ] in
      let behind : Trail regs_size m' s (page_end (p + n)) (p + n) (page_end q) (q + 12) 1 =
        subst (λ a. Trail regs_size m' s (page_end (p + n)) (p + n) (page_end q) a 1) p_is
          (subst (λ b. Trail regs_size m' s (page_end (p + n)) (p + n) b p 1)
            (omega (arith, p_is, begins)) last_entry) in
      let page : Trail regs_size m' s (page_end (p + n)) (p + n) (page_end q) q 2 =
        entry (omega (arith, at_last)) (omega (arith, begins)) (omega (arith, begins))
          (mark first second) behind in
      over (omega (arith, at_last, apart, begins, p_is, fits, start, low, high)) high ends (
        subst (λ a. Trail regs_size m' s (page_end (p + n)) (p + n) (page_end a) a 2) (sym linked)
          page)

  pub Placed-Trail :
      Placed w s.id p m
      → (k : ℕ) × (k ≤ 3) × Trail regs_size m' s (page_end (p + n)) (p + n) (page_end w) w k
  Placed-Trail (here same) = (
    1,
    omega arith,
    subst (λ a. Trail regs_size m' s (page_end (p + n)) (p + n) (page_end a) a 1) same last_entry,
  )
  Placed-Trail (turned q link ends_here begins p_is marked noted apart) =
      (3, omega arith, turned-Trail q link ends_here begins p_is marked noted apart)
