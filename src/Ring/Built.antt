-- ===== src/Ring/Built.antt =====
-- gtp_rb.c, `gtp_rb_page_alloc`: the ring that it leaves.
use mathlib.Core.Path.{subst}
use kgtp.Base.{
  ℕ, zero, suc, ◌+◌, ◌-◌, ◌*◌, ◌/◌, ◌≤◌, ◌<◌, ◌≡◌, refl, sym, ap, ◌∙◌, ◌⊎◌, inl, inr, arith, true,
  false, Option, some, ltb, ◌==◌, Bool-cases,
}
use kgtp.Ring.Bytes.{Memory}
use kgtp.Ring.Pages.{Rb, data_begin, set_prev, set_next}
use kgtp.Ring.Setup.{Setup, add_page, close_ring, page_loop, close_or_fail, page_alloc}
use kgtp.Ring.Linked.{IsPlace, Linked, Leads, here, on, Leads-map}
use kgtp.Ring.Surgery.{join}
use kgtp.Ring.Chain.{Inner, Chain, Chain-one, Chain-add, Chain-close}
use kgtp.Ring.Inv.{IsRing, join-eq}

-- One of the first `n` pages of `f`.
abbrev pub Got : (ℕ → ℕ) → ℕ → ℕ → Type 0
Got f n h = (i : ℕ) × (i < n) × (f i ≡ h)

Inner-map :
    (P Q : ℕ → Type 0) (m : Memory) (top last h k : ℕ)
    → ((x : ℕ) → P x → Q x)
    → Inner P m top last h k
    → Inner Q m top last h k
Inner-map P Q m top last h k to w = (to h w.0, to k w.1, w.2, w.3, w.4)

Chain-map :
    (P Q : ℕ → Type 0) (m : Memory) (top last : ℕ)
    → ((x : ℕ) → P x → Q x)
    → ((x : ℕ) → Q x → P x)
    → Chain P m top last
    → Chain Q m top last
Chain-map P Q m top last to from c = record {
  place = λ h q. c.place h (from h q);
  top_page = to top c.top_page;
  last_page = to last c.last_page;
  next = λ h q. elim (c.next h (from h q)) [
    | inl e ↦ inl e
    | inr (k, w) ↦ inr (k, Inner-map P Q m top last h k to w)
  ];
  prev = λ k q. elim (c.prev k (from k q)) [
    | inl e ↦ inl e
    | inr (h, w) ↦ inr (h, Inner-map P Q m top last h k to w)
  ];
  down = λ k q. moved top k (c.down k (from k q));
  out = λ h q. moved h last (c.out h (from h q));
}
  where
    moved : (h k : ℕ) → Leads (Inner P m top last) h k → Leads (Inner Q m top last) h k
    moved h k =
        Leads-map (Inner P m top last) (Inner Q m top last) h k
          (λ x y s. on here (Inner-map P Q m top last x y to s))

module _ (f : ℕ → ℕ) (all : ℕ) (place : (i : ℕ) → i < all → IsPlace (f i))
    (distinct : (i j : ℕ) → i < all → j < all → f i ≡ f j → i ≡ j) where
  -- Some pages are a chain, up to `w`.
  record Stage (s : Setup) : Type 0 where
    top : ℕ
    bottom : ℕ
    at_w : s.w ≡ top + 8
    at_next : s.next ≡ top + 8
    at_last : s.last ≡ bottom + 8
    chain : Chain (Got f s.count) s.mem top bottom

  first-Stage :
      (s : Setup) → 0 < all → s.count ≡ 0 → s.next ≡ 0 → s.last ≡ 0 → Stage (add_page (f 0) s)
  unfolding add_page
  first-Stage s some_page none_yet at_next at_last =
      let w : data_begin (f 0) ≡ f 0 + 8 = omega (arith, place 0 some_page) in
      record {
        top = f 0;
        bottom = f 0;
        at_w = w;
        at_next = w;
        at_last = rw at_last w;
        chain =
            Chain-map (λ h. h ≡ f 0) (Got f (s.count + 1)) _ (f 0) (f 0)
              (λ h e. (0, omega arith, sym e))
              (λ h g. sym g.2 ∙ ap f (omega (arith, g.1, none_yet)))
              (Chain-one _ (f 0) (place 0 some_page));
      }

  from_next : (n h : ℕ) → Got f (n + 1) h → Got f n h ⊎ (h ≡ f n)
  from_next n h (i, lt, e) =
      let old : (i < n) ⊎ (i ≡ n) = omega (arith, lt) in
      elim old [ inl low ↦ inl (i, low, e) | inr same ↦ inr (sym e ∙ ap f same) ]

  next-Stage : (s : Setup) → s.count < all → Stage s → Stage (add_page (f s.count) s)
  unfolding add_page
  next-Stage s room st =
      let n = s.count in
      let p = f n in
      let w : data_begin p ≡ p + 8 = omega (arith, place n room) in
      let more : (s.next == 0) ≡ false = ground (arith, st.at_next) in
      let kept : (s.last == 0) ≡ false = ground (arith, st.at_last) in
      let mem : (add_page p s).mem ≡ join s.mem p st.top (st.top + 8) (p + 8) =
        rw (more, w, st.at_next)
          (join-eq s.mem p st.top (st.top + 8) (p + 8) (place n room).0
            (st.chain.place st.top st.chain.top_page).0) in
      record {
        top = p;
        bottom = st.bottom;
        at_w = w;
        at_next = w;
        at_last = rw kept st.at_last;
        chain =
            subst (λ m. Chain (Got f (n + 1)) m p st.bottom) (sym mem)
              (Chain-map (λ h. Got f n h ⊎ (h ≡ p)) (Got f (n + 1)) _ p st.bottom
                (λ h g. elim g [
                  | inl (i, lt, e) ↦ (i, omega arith, e)
                  | inr e ↦ (n, omega arith, sym e)
                ])
                (λ h g. from_next n h g)
                (Chain-add (Got f n) s.mem st.top st.bottom p (place n room)
                  (λ g.
                    absurd (omega (arith, g.1, distinct g.0 n (omega (arith, room, g.1)) room g.2)))
                  st.chain));
      }

  -- The loop goes on to its end.
  record Looped (o : Option Setup) (n : ℕ) : Type 0 where
    result : Setup
    looped : o ≡ some result
    count : result.count ≡ n
    stage : Stage result

  loop-Looped :
      (fuel size : ℕ) (s : Setup)
      → size < fuel
      → s.count + (size + 4095) / 4096 ≤ all
      → Stage s
      → Looped (page_loop (λ i. some (f i)) fuel size s) (s.count + (size + 4095) / 4096)
  unfolding page_loop add_page
  loop-Looped zero size s enough room st = absurd (omega arith)
  loop-Looped (suc fuel) size s enough room st = elim (Bool-cases (ltb 0 size)) [
    | inl more ↦
        let pos : 0 < size = ground arith in
        let l =
          loop-Looped fuel (size - 4096) (add_page (f s.count) s) (omega arith) (omega arith)
            (next-Stage s (omega arith) st) in
        record {
          result = l.result;
          looped = rw more l.looped;
          count = omega (arith, l.count, pos);
          stage = l.stage;
        }
    | inr over ↦ record { result = s; looped = rw over refl; count = ground arith; stage = st }
  ]

  closed-IsRing :
      (rb : Rb) (s : Setup) (n : ℕ)
      → s.count ≡ n
      → 2 < n
      → Stage s
      → (rb' : Rb) × (close_ring rb s ≡ some rb') × IsRing (Got f n) rb' × (rb'.r ≡ rb'.w)
  unfolding close_ring
  closed-IsRing rb s n count many st =
      let c = st.chain in
      let enough : ltb s.count 3 ≡ false = ground arith in
      let pt = c.place st.top c.top_page in
      let pb = c.place st.bottom c.last_page in
      let mem : set_prev (set_next s.mem s.last s.next) s.next s.last
          ≡ join s.mem st.bottom st.top (st.top + 8) (st.bottom + 8) =
        rw (st.at_last, st.at_next)
          (join-eq s.mem st.bottom st.top (st.top + 8) (st.bottom + 8) pb.0 pt.0) in
      (
        record rb { mem = set_prev (set_next s.mem s.last s.next) s.next s.last; w = s.w; r = s.w },
        rw enough refl,
        record {
          linked = subst (Linked (Got f n)) (sym mem) (
              subst
                (λ k. Linked (Got f k) (join s.mem st.bottom st.top (st.top + 8) (st.bottom + 8)))
                count (Chain-close (Got f s.count) s.mem st.top st.bottom c));
          w_page =
              subst (Got f n) (omega (arith, st.at_w, pt))
                (subst (λ k. Got f k st.top) count c.top_page);
          w_low = omega (arith, st.at_w, pt);
          w_high = omega (arith, st.at_w, pt);
          r_page =
              subst (Got f n) (omega (arith, st.at_w, pt))
                (subst (λ k. Got f k st.top) count c.top_page);
        },
        refl,
      )

  -- `gtp_rb_page_alloc` for more than two pages, where every allocation succeeds and the pages, as many
  -- as are needed, are distinct: it succeeds, and the pages are one ring in order, with the reader at
  -- the writer.
  pub page_alloc-IsRing :
      (size : ℕ) (rb : Rb)
      → 2 * 4096 < size
      → (size + 4095) / 4096 ≤ all
      → (rb' : Rb) × (page_alloc (λ i. some (f i)) size rb ≡ some rb')
        × IsRing (Got f ((size + 4095) / 4096)) rb'
        × (rb'.r ≡ rb'.w)
  unfolding page_alloc close_or_fail page_loop add_page
  page_alloc-IsRing size rb many room =
      let s₀ : Setup = record { mem = rb.mem; w = rb.w; last = 0; next = 0; count = 0 } in
      let l =
        loop-Looped size (size - 4096) (add_page (f 0) s₀) (omega arith) (omega arith)
          (first-Stage s₀ (omega arith) refl refl refl) in
      let more : ltb 0 size ≡ true = ground arith in
      let (rb', closed, ring, met) =
        closed-IsRing rb l.result ((size + 4095) / 4096) (omega (arith, l.count)) (omega arith)
          l.stage in
      (rb', rw (more, l.looped) closed, ring, met)
