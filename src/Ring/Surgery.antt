-- ===== src/Ring/Surgery.antt =====
-- gtp_rb.c, the four and the two links that `gtp_rb_put_page` and `gtp_rb_get_page` write.
use mathlib.Core.Path.{subst}
use kgtp.Base.{ℕ, ◌+◌, ◌^◌, ◌<◌, ◌≡◌, ◌≢◌, refl, sym, ap, ◌∙◌, ◌⊎◌, inl, inr, arith}
use kgtp.Ring.Bytes.{Memory, load, store, limit, load-store_apart, load-store_same}
use kgtp.Ring.Linked.{
  Follows, IsPlace, Linked, Leads, here, on, Leads-trans, Leads-map, Next, Follows-unique_next,
  Follows-unique_prev,
}

eq_cases : (a b : ℕ) → (a ≡ b) ⊎ (a ≢ b)
eq_cases a b = omega arith

-- The link behind `a` and the link before `b`, as one write.
abbrev pub join : Memory → ℕ → ℕ → ℕ → ℕ → Memory
join m a b v u = store 8 (store 8 m (a + 4088) v) b u

module _ (m : Memory) (a b v u : ℕ) (pa : IsPlace a) (pb : IsPlace b) where
  join-forth_same : v < 2 ^ 64 → load 8 (join m a b v u) (a + 4088) ≡ v
  unfolding limit
  join-forth_same small =
      load-store_apart 8 8 (store 8 m (a + 4088) v) (a + 4088) b u (omega (arith, pa, pb))
      ∙ load-store_same 8 m (a + 4088) v small

  join-forth_other :
      (h : ℕ) → IsPlace h → h ≢ a → load 8 (join m a b v u) (h + 4088) ≡ load 8 m (h + 4088)
  join-forth_other h ph ne =
      load-store_apart 8 8 (store 8 m (a + 4088) v) (h + 4088) b u (omega (arith, ph, pb))
      ∙ load-store_apart 8 8 m (h + 4088) (a + 4088) v (omega (arith, ne, ph, pa))

  join-back_same : u < 2 ^ 64 → load 8 (join m a b v u) b ≡ u
  unfolding limit
  join-back_same small = load-store_same 8 (store 8 m (a + 4088) v) b u small

  join-back_other : (k : ℕ) → IsPlace k → k ≢ b → load 8 (join m a b v u) k ≡ load 8 m k
  join-back_other k pk ne =
      load-store_apart 8 8 (store 8 m (a + 4088) v) k b u (omega (arith, ne, pk, pb))
      ∙ load-store_apart 8 8 m k (a + 4088) v (omega (arith, pk, pa))

  pub join-Follows_other :
      (h k : ℕ)
      → IsPlace h
      → IsPlace k
      → h ≢ a
      → k ≢ b
      → Follows m h k
      → Follows (join m a b v u) h k
  join-Follows_other h k ph pk nh nk f = record {
    forth = join-forth_other h ph nh ∙ f.forth;
    back = join-back_other k pk nk ∙ f.back;
  }

pub join-Follows :
    (m : Memory) (a b : ℕ) → IsPlace a → IsPlace b → Follows (join m a b (b + 8) (a + 8)) a b
join-Follows m a b pa pb = record {
  forth = join-forth_same m a b (b + 8) (a + 8) pa pb (omega (arith, pb));
  back = join-back_same m a b (b + 8) (a + 8) pa pb (omega (arith, pa));
}

module _ (m : Memory) (h k h' k' : ℕ) (f : Follows m h k) (g : Follows m h' k') where
  apart_next : h ≢ h' → k ≢ k'
  apart_next ne e = ne (omega (arith, f.back, g.back, ap (load 8 m) e))

  apart_prev : k ≢ k' → h ≢ h'
  apart_prev ne e = ne (omega (arith, f.forth, g.forth, ap (λ x. load 8 m (x + 4088)) e))

-- The page `p` between `a` and `b` leaves the ring.
module _ (IsPage : ℕ → Type 0) (m : Memory) (a p b : ℕ) (l : Linked IsPage m) (qa : IsPage a)
    (qp : IsPage p) (qb : IsPage b) (f : Follows m a p) (g : Follows m p b) (ne : p ≢ b) where
  abbrev Left : ℕ → Type 0
  Left h = IsPage h × (h ≢ p)

  abbrev left : Memory
  left = join m a b (b + 8) (a + 8)

  before-Left : Left a
  before-Left = (qa, apart_prev m a p p b f g ne)

  behind-Left : Left b
  behind-Left = (qb, λ e. ne (sym e))

  joined : Follows left a b
  joined = join-Follows m a b (l.place a qa) (l.place b qb)

  kept_left : (h k : ℕ) → IsPage h → IsPage k → h ≢ a → h ≢ p → Follows m h k → Follows left h k
  kept_left h k qh qk far ne_p w =
      join-Follows_other m a b (b + 8) (a + 8) (l.place a qa) (l.place b qb) h k (l.place h qh)
        (l.place k qk) far (apart_next m h k p b w g ne_p) w

  -- Where a way in the ring leads, without `p`: to `a` in its place
  abbrev Arrives : ℕ → ℕ → Type 0
  Arrives h x = ((x ≡ p) × Leads (Next Left left) h a) ⊎ ((x ≢ p) × Leads (Next Left left) h x)

  step_left : (h x y : ℕ) → Next IsPage m x y → Arrives h x → Arrives h y
  step_left h x y (qx, qy, w) (inl (e, way)) =
      let to_b : b ≡ y = Follows-unique_next m p b y g (subst (λ z. Follows m z y) e w) in
      inr (
        (λ e'. ne (sym (to_b ∙ e'))),
        subst (Leads (Next Left left) h) to_b (on way (before-Left, behind-Left, joined)),
      )
  step_left h x y (qx, qy, w) (inr (far, way)) = elim (eq_cases y p) [
    | inl e ↦
        let from_a : x ≡ a = Follows-unique_prev m x a p (subst (Follows m x) e w) f in
        inl (e, subst (Leads (Next Left left) h) from_a way)
    | inr ne_p ↦
        let ne_a : x ≢ a =
          λ e. ne_p (Follows-unique_next m a y p (subst (λ z. Follows m z y) e w) f) in
        inr (ne_p, on way ((qx, far), (qy, ne_p), kept_left x y qx qy ne_a far w))
  ]

  arrives : (h k : ℕ) → h ≢ p → Leads (Next IsPage m) h k → Arrives h k
  arrives h _ ne_p here = inr (ne_p, here)
  arrives h _ ne_p (on {x} {y} way s) = step_left h x y s (arrives h x ne_p way)

  arrived : (h k : ℕ) → k ≢ p → Arrives h k → Leads (Next Left left) h k
  arrived h k ne_p (inl (e, way)) = absurd (ne_p e)
  arrived h k ne_p (inr (far, way)) = way

  pub unlink-Linked : Linked Left left
  unlink-Linked = record {
    place = λ h q. l.place h q.0;
    next = λ h q. elim (eq_cases h a) [
      | inl e ↦ (b, behind-Left, subst (λ x. Follows left x b) (sym e) joined)
      | inr far ↦
          let (k, qk, w) = l.next h q.0 in
          (k, (qk, apart_next m h k a p w f far), kept_left h k q.0 qk far q.1 w)
    ];
    prev = λ k q. elim (eq_cases k b) [
      | inl e ↦ (a, before-Left, subst (λ x. Follows left a x) (sym e) joined)
      | inr far ↦
          let (h, qh, w) = l.prev k q.0 in
          let ne_p = apart_prev m h k p b w g far in
          (h, (qh, ne_p), kept_left h k qh q.0 (apart_prev m h k a p w f q.1) ne_p w)
    ];
    around = λ h k p q. arrived h k q.1 (arrives h k p.1 (l.around h k p.0 q.0));
  }

-- The two links of the page `g` itself.
abbrev pub own : Memory → ℕ → ℕ → ℕ → Memory
own m g x y = store 8 (store 8 m g x) (g + 4088) y

module _ (m : Memory) (g x y : ℕ) (pg : IsPlace g) where
  own-forth_other :
      (h : ℕ) → IsPlace h → h ≢ g → load 8 (own m g x y) (h + 4088) ≡ load 8 m (h + 4088)
  own-forth_other h ph ne =
      load-store_apart 8 8 (store 8 m g x) (h + 4088) (g + 4088) y (omega (arith, ne, ph, pg))
      ∙ load-store_apart 8 8 m (h + 4088) g x (omega (arith, ph, pg))

  own-back_other : (k : ℕ) → IsPlace k → k ≢ g → load 8 (own m g x y) k ≡ load 8 m k
  own-back_other k pk ne =
      load-store_apart 8 8 (store 8 m g x) k (g + 4088) y (omega (arith, pk, pg))
      ∙ load-store_apart 8 8 m k g x (omega (arith, ne, pk, pg))

  own-forth_same : y < 2 ^ 64 → load 8 (own m g x y) (g + 4088) ≡ y
  unfolding limit
  own-forth_same small = load-store_same 8 (store 8 m g x) (g + 4088) y small

  own-back_same : x < 2 ^ 64 → load 8 (own m g x y) g ≡ x
  unfolding limit
  own-back_same small =
      load-store_apart 8 8 (store 8 m g x) g (g + 4088) y (omega arith)
      ∙ load-store_same 8 m g x small

  own-Follows_other :
      (h k : ℕ) → IsPlace h → IsPlace k → h ≢ g → k ≢ g → Follows m h k → Follows (own m g x y) h k
  own-Follows_other h k ph pk nh nk f = record {
    forth = own-forth_other h ph nh ∙ f.forth;
    back = own-back_other k pk nk ∙ f.back;
  }

abbrev pub linked_in : Memory → ℕ → ℕ → ℕ → Memory
linked_in m a g b = own (join m a b (g + 8) (g + 8)) g (a + 8) (b + 8)

-- The page `g` comes between `a` and `b`.
pub link-Follows :
    (m : Memory) (a g b : ℕ)
    → IsPlace a
    → IsPlace g
    → IsPlace b
    → a ≢ g
    → b ≢ g
    → Follows (linked_in m a g b) a g × Follows (linked_in m a g b) g b
link-Follows m a g b pa pg pb na nb =
    let m₁ = join m a b (g + 8) (g + 8) in
    (
      record {
        forth =
            own-forth_other m₁ g (a + 8) (b + 8) pg a pa na
            ∙ join-forth_same m a b (g + 8) (g + 8) pa pb (omega (arith, pg));
        back = own-back_same m₁ g (a + 8) (b + 8) pg (omega (arith, pa));
      },
      record {
        forth = own-forth_same m₁ g (a + 8) (b + 8) pg (omega (arith, pb));
        back =
            own-back_other m₁ g (a + 8) (b + 8) pg b pb nb
            ∙ join-back_same m a b (g + 8) (g + 8) pa pb (omega (arith, pg));
      },
    )

-- The page `g`, outside the ring so far, between `a` and the page `b` behind it.
pub link-Linked :
    (IsPage : ℕ → Type 0) (m : Memory) (a g b : ℕ)
    → Linked IsPage m
    → IsPage a
    → IsPage b
    → Follows m a b
    → IsPlace g
    → (IsPage g → ⊥)
    → Linked (λ h. IsPage h ⊎ (h ≡ g)) (linked_in m a g b)
link-Linked IsPage m a g b l qa qb f pg new = record {
  place = placed;
  next = λ h q. elim q [
    | inl q ↦ elim (eq_cases h a) [
      | inl e ↦ (g, inr refl, subst (λ x. Follows m₂ x g) (sym e) before)
      | inr far ↦
          let (k, qk, w) = l.next h q in
          (k, inl qk, kept h k q qk far (apart_next m h k a b w f far) w)
    ]
    | inr e ↦ (b, inl qb, subst (λ x. Follows m₂ x b) (sym e) behind)
  ];
  prev = λ k q. elim q [
    | inl q ↦ elim (eq_cases k b) [
      | inl e ↦ (g, inr refl, subst (λ x. Follows m₂ g x) (sym e) behind)
      | inr far ↦
          let (h, qh, w) = l.prev k q in
          (h, inl qh, kept h k qh q (apart_prev m h k a b w f far) far w)
    ]
    | inr e ↦ (a, inl qa, subst (λ x. Follows m₂ a x) (sym e) before)
  ];
  around = λ h k p q. Leads-trans (Next IsPage' m₂) h b k (to_b h p) (from_b k q);
}
  where
    IsPage' : ℕ → Type 0
    IsPage' h = IsPage h ⊎ (h ≡ g)

    m₁ : Memory
    m₁ = join m a b (g + 8) (g + 8)

    m₂ : Memory
    m₂ = own m₁ g (a + 8) (b + 8)

    not_new : (h : ℕ) → IsPage h → h ≢ g
    not_new h q e = new (subst IsPage e q)

    placed : (h : ℕ) → IsPage h ⊎ (h ≡ g) → IsPlace h
    placed h (inl q) = l.place h q
    placed h (inr e) = subst IsPlace (sym e) pg

    parts : Follows m₂ a g × Follows m₂ g b
    parts = link-Follows m a g b (l.place a qa) pg (l.place b qb) (not_new a qa) (not_new b qb)

    before : Follows m₂ a g
    before = parts.0

    behind : Follows m₂ g b
    behind = parts.1

    kept : (h k : ℕ) → IsPage h → IsPage k → h ≢ a → k ≢ b → Follows m h k → Follows m₂ h k
    kept h k qh qk nh nk w =
        own-Follows_other m₁ g (a + 8) (b + 8) pg h k (l.place h qh) (l.place k qk) (not_new h qh)
          (not_new k qk)
          (join-Follows_other m a b (g + 8) (g + 8) (l.place a qa) (l.place b qb) h k (l.place h qh)
            (l.place k qk) nh nk w)

    -- A step in the ring before, where that from `a` to `b` goes over `g`
    step : (x y : ℕ) → Next IsPage m x y → Leads (Next IsPage' m₂) x y
    step x y (qx, qy, w) = elim (eq_cases x a) [
      | inl e ↦
          let to_b : b ≡ y = Follows-unique_next m a b y f (subst (λ z. Follows m z y) e w) in
          subst (λ z. Leads (Next IsPage' m₂) z y) (sym e)
            (subst (Leads (Next IsPage' m₂) a) to_b
              (on (on here (inl qa, inr refl, before)) (inr refl, inl qb, behind)))
      | inr far ↦ on here (inl qx, inl qy, kept x y qx qy far (apart_next m x y a b w f far) w)
    ]

    to_b : (h : ℕ) → IsPage' h → Leads (Next IsPage' m₂) h b
    to_b h (inl q) = Leads-map (Next IsPage m) (Next IsPage' m₂) h b step (l.around h b q qb)
    to_b h (inr e) = on here (inr e, inl qb, subst (λ x. Follows m₂ x b) (sym e) behind)

    from_b : (k : ℕ) → IsPage' k → Leads (Next IsPage' m₂) b k
    from_b k (inl q) = Leads-map (Next IsPage m) (Next IsPage' m₂) b k step (l.around b k qb q)
    from_b k (inr e) =
        on (Leads-map (Next IsPage m) (Next IsPage' m₂) b a step (l.around b a qb qa))
          (inl qa, inr e, subst (λ x. Follows m₂ a x) (sym e) before)
