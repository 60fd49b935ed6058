-- ===== src/Ring/Inv.antt =====
-- gtp_rb.c, what holds of `struct gtp_rb_s` between two calls, with its pages linked to a ring.
use kgtp.Base.{ℕ, ◌+◌, ◌%◌, ◌≤◌, ◌≡◌, ap, ◌∙◌, arith}
use kgtp.Ring.Bytes.{Memory, load, store}
use kgtp.Ring.Pages.{Rb, head, data_begin, page_end, get_prev, get_next, set_prev, set_next}
use kgtp.Ring.Linked.{Follows, IsPlace, Linked}
use kgtp.Ring.Surgery.{join, own}

-- The writer is in the data part of a page of the ring, or at its end, and the reader in a page.
pub record IsRing (IsPage : ℕ → Type 0) (rb : Rb) : Type 0 where
  pub linked : Linked IsPage rb.mem
  pub w_page : IsPage (head rb.w)
  pub w_low : data_begin rb.w ≤ rb.w
  pub w_high : rb.w ≤ page_end rb.w
  pub r_page : IsPage (head rb.r)

-- What an address in a page finds behind its page, and before it.
pub record Neighbour (IsPage : ℕ → Type 0) (m : Memory) (x : ℕ) : Type 0 where
  pub before : ℕ
  pub behind : ℕ
  pub before_page : IsPage before
  pub behind_page : IsPage behind
  pub from : Follows m before (head x)
  pub to : Follows m (head x) behind
  pub prev : get_prev m x ≡ before + 8
  pub next : get_next m x ≡ behind + 8
  pub before_place : IsPlace before
  pub behind_place : IsPlace behind

pub neighbour :
    (IsPage : ℕ → Type 0) (m : Memory) (x : ℕ)
    → Linked IsPage m
    → IsPage (head x)
    → Neighbour IsPage m x
neighbour IsPage m x l page =
    let (b, qb, g) = l.next (head x) page in
    let (a, qa, f) = l.prev (head x) page in
    let same : page_end x ≡ head x + 4088 = omega arith in
    record {
      before = a;
      behind = b;
      before_page = qa;
      behind_page = qb;
      from = f;
      to = g;
      prev = f.back;
      next = ap (load 8 m) same ∙ g.forth;
      before_place = l.place a qa;
      behind_place = l.place b qb;
    }

pub head-data : (h : ℕ) → h % 4096 ≡ 0 → head (h + 8) ≡ h
head-data h p = omega arith

-- The writes of the source, at the addresses of the links.
pub join-eq :
    (m : Memory) (a b v u : ℕ)
    → a % 4096 ≡ 0
    → b % 4096 ≡ 0
    → set_prev (set_next m (a + 8) v) (b + 8) u ≡ join m a b v u
join-eq m a b v u pa pb =
    let e₁ : page_end (a + 8) ≡ a + 4088 = omega arith in
    let e₂ : head (b + 8) ≡ b = omega arith in
    ap (λ x. store 8 (store 8 m x v) (head (b + 8)) u) e₁
    ∙ ap (λ x. store 8 (store 8 m (a + 4088) v) x u) e₂

pub own-eq : (m : Memory) (g c x y : ℕ) → head c ≡ g → set_next (set_prev m c x) c y ≡ own m g x y
own-eq m g c x y pc =
    let e₁ : page_end c ≡ g + 4088 = omega arith in
    ap (λ z. store 8 (store 8 m z x) (page_end c) y) pc ∙ ap (λ z. store 8 (store 8 m g x) z y) e₁
