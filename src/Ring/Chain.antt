-- ===== src/Ring/Chain.antt =====
-- gtp_rb.c, the pages that `gtp_rb_page_alloc` has linked so far, and the ring at its end.
use mathlib.Core.Path.{subst}
use kgtp.Base.{ℕ, ◌+◌, ◌≡◌, ◌≢◌, refl, sym, ◌⊎◌, inl, inr}
use kgtp.Ring.Bytes.{Memory}
use kgtp.Ring.Linked.{Follows, IsPlace, Linked, Leads, here, on, Leads-trans, Leads-map, Next}
use kgtp.Ring.Surgery.{join, join-Follows, join-Follows_other}

-- The next page inside the chain, and the one before.
abbrev pub Inner : (ℕ → Type 0) → Memory → ℕ → ℕ → ℕ → ℕ → Type 0
Inner IsPage m top last h k = IsPage h × IsPage k × (h ≢ last) × (k ≢ top) × Follows m h k

-- From `top`, each page leads to the next, down to `last`.
pub record Chain (IsPage : ℕ → Type 0) (m : Memory) (top last : ℕ) : Type 0 where
  pub place : (h : ℕ) → IsPage h → IsPlace h
  pub top_page : IsPage top
  pub last_page : IsPage last
  pub next : (h : ℕ) → IsPage h → (h ≡ last) ⊎ ((k : ℕ) × Inner IsPage m top last h k)
  pub prev : (k : ℕ) → IsPage k → (k ≡ top) ⊎ ((h : ℕ) × Inner IsPage m top last h k)
  pub down : (k : ℕ) → IsPage k → Leads (Inner IsPage m top last) top k
  pub out : (h : ℕ) → IsPage h → Leads (Inner IsPage m top last) h last

pub Chain-one : (m : Memory) (p : ℕ) → IsPlace p → Chain (λ h. h ≡ p) m p p
Chain-one m p place = record {
  place = λ h e. subst IsPlace (sym e) place;
  top_page = refl;
  last_page = refl;
  next = λ h e. inl e;
  prev = λ k e. inl e;
  down = λ k e. subst (Leads (Inner (λ h. h ≡ p) m p p) p) (sym e) here;
  out = λ h e. subst (λ x. Leads (Inner (λ h. h ≡ p) m p p) x p) (sym e) here;
}

-- A new page on top.
pub Chain-add :
    (IsPage : ℕ → Type 0) (m : Memory) (top last p : ℕ)
    → IsPlace p
    → (IsPage p → ⊥)
    → Chain IsPage m top last
    → Chain (λ h. IsPage h ⊎ (h ≡ p)) (join m p top (top + 8) (p + 8)) p last
Chain-add IsPage m top last p place new c = record {
  place = placed;
  top_page = inr refl;
  last_page = inl c.last_page;
  next = λ h q. elim q [
    | inl q ↦ elim (c.next h q) [ inl e ↦ inl e | inr (k, w) ↦ inr (k, kept h k w) ]
    | inr e ↦ inr (top, subst (λ x. Inner IsPage' m' p last x top) (sym e) first)
  ];
  prev = λ k q. elim q [
    | inl q ↦ elim (c.prev k q) [
      | inl e ↦ inr (p, subst (λ x. Inner IsPage' m' p last p x) (sym e) first)
      | inr (h, w) ↦ inr (h, kept h k w)
    ]
    | inr e ↦ inl e
  ];
  down = λ k q. elim q [
    | inl q ↦ Leads-trans Step' p top k (on here first) (kept_way top k (c.down k q))
    | inr e ↦ subst (Leads Step' p) (sym e) here
  ];
  out = λ h q. elim q [
    | inl q ↦ kept_way h last (c.out h q)
    | inr e ↦
        subst (λ x. Leads Step' x last) (sym e)
          (Leads-trans Step' p top last (on here first) (kept_way top last (c.out top c.top_page)))
  ];
}
  where
    m' : Memory
    m' = join m p top (top + 8) (p + 8)

    IsPage' : ℕ → Type 0
    IsPage' h = IsPage h ⊎ (h ≡ p)

    placed : (h : ℕ) → IsPage' h → IsPlace h
    placed h (inl q) = c.place h q
    placed h (inr e) = subst IsPlace (sym e) place

    not_new : (h : ℕ) → IsPage h → h ≢ p
    not_new h q e = new (subst IsPage e q)

    first : Inner IsPage' m' p last p top
    first = (
      inr refl,
      inl c.top_page,
      λ e. new (subst IsPage (sym e) c.last_page),
      not_new top c.top_page,
      join-Follows m p top place (c.place top c.top_page),
    )

    kept : (h k : ℕ) → Inner IsPage m top last h k → Inner IsPage' m' p last h k
    kept h k (qh, qk, far, low, f) = (
      inl qh,
      inl qk,
      far,
      not_new k qk,
      join-Follows_other m p top (top + 8) (p + 8) place (c.place top c.top_page) h k (c.place h qh)
          (c.place k qk) (not_new h qh) low f,
    )

    Step' : ℕ → ℕ → Type 0
    Step' = Inner IsPage' m' p last

    kept_way : (h k : ℕ) → Leads (Inner IsPage m top last) h k → Leads Step' h k
    kept_way h k = Leads-map (Inner IsPage m top last) Step' h k (λ x y s. on here (kept x y s))

-- The last page leads to the top.
pub Chain-close :
    (IsPage : ℕ → Type 0) (m : Memory) (top last : ℕ)
    → Chain IsPage m top last
    → Linked IsPage (join m last top (top + 8) (last + 8))
Chain-close IsPage m top last c = record {
  place = c.place;
  next = λ h q. elim (c.next h q) [
    | inl e ↦ (top, c.top_page, subst (λ x. Follows m' x top) (sym e) closed)
    | inr (k, w) ↦ (k, w.1, kept h k w)
  ];
  prev = λ k q. elim (c.prev k q) [
    | inl e ↦ (last, c.last_page, subst (λ x. Follows m' last x) (sym e) closed)
    | inr (h, w) ↦ (h, w.0, kept h k w)
  ];
  around = λ h k p q. Leads-trans (Next IsPage m') h last k (kept_way h last (c.out h p)) (
      Leads-trans (Next IsPage m') last top k (on here (c.last_page, c.top_page, closed))
        (kept_way top k (c.down k q)));
}
  where
    m' : Memory
    m' = join m last top (top + 8) (last + 8)

    closed : Follows m' last top
    closed = join-Follows m last top (c.place last c.last_page) (c.place top c.top_page)

    kept : (h k : ℕ) → Inner IsPage m top last h k → Follows m' h k
    kept h k (qh, qk, far, low, f) =
        join-Follows_other m last top (top + 8) (last + 8) (c.place last c.last_page)
          (c.place top c.top_page) h k (c.place h qh) (c.place k qk) far low f

    kept_way : (h k : ℕ) → Leads (Inner IsPage m top last) h k → Leads (Next IsPage m') h k
    kept_way h k =
        Leads-map (Inner IsPage m top last) (Next IsPage m') h k
          (λ x y s. on here (s.0, s.1, kept x y s))
