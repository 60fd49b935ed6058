-- ===== src/Ring/PutBack.antt =====
-- gtp_rb.c, `gtp_rb_put_page`: the four places where the page comes back.
use mathlib.Core.Path.{subst}
use kgtp.Base.{
  ℕ, ◌+◌, ◌%◌, ◌≡◌, ◌≢◌, refl, sym, ap, ◌∙◌, ◌⊎◌, inl, inr, arith, Bool, true, false, ◌==◌,
  if◌then◌else◌, if-elim,
}
use kgtp.Ring.Bytes.{Memory}
use kgtp.Ring.Pages.{Rb, head, data_begin, get_prev, get_next, set_prev, set_next}
use kgtp.Ring.Write.{link, put_empty, put_full, put_page}
use kgtp.Ring.Linked.{Follows, IsPlace, Linked}
use kgtp.Ring.Surgery.{join, own, link-Linked, link-Follows}
use kgtp.Ring.Inv.{IsRing, neighbour, join-eq, own-eq}
use kgtp.Ring.Exchange.{With}

link-eq :
    (m : Memory) (a b prev page next : ℕ)
    → a % 4096 ≡ 0
    → b % 4096 ≡ 0
    → prev ≡ a + 8
    → next ≡ b + 8
    → let g = head page in
      link m prev page next ≡ own (join m a b (g + 8) (g + 8)) g (a + 8) (b + 8)
link-eq m a b prev page next pa pb ep en =
    let g = head page in
    rw (ep, en)
      (own-eq (set_prev (set_next m (a + 8) (g + 8)) (b + 8) (g + 8)) g page (a + 8) (b + 8) refl
        ∙ ap (λ x. own x g (a + 8) (b + 8)) (join-eq m a b (g + 8) (g + 8) pa pb))

-- Where the page comes in front of the others: before the page of the reader, or behind it where the
-- reader has read a part of it. The reader is at the page.
abbrev pub InFront : ℕ → Rb → Rb → Type 0
InFront page rb rb' =
    (rb'.r ≡ page)
    × (rb'.w ≡ rb.w)
    × (((rb.r ≡ data_begin rb.r) × Follows rb'.mem (head page) (head rb.r))
        ⊎ ((rb.r ≢ data_begin rb.r) × Follows rb'.mem (head rb.r) (head page)))

-- Where the page comes to be written: before the page of the writer, which moves there, where nothing
-- is written in that, and behind it otherwise. The reader stays, unless it is at the writer.
abbrev pub AtWriter : ℕ → Rb → Rb → Type 0
AtWriter page rb rb' =
    ((rb.w ≡ data_begin rb.w)
      × (rb'.w ≡ page)
      × (rb'.r ≡ (if rb.r == rb.w then page else rb.r))
      × Follows rb'.mem (head page) (head rb.w))
    ⊎ ((rb.w ≢ data_begin rb.w)
        × (rb'.w ≡ rb.w)
        × (rb'.r ≡ rb.r)
        × Follows rb'.mem (head rb.w) (head page))

-- The ring has the page as well, at its place.
abbrev pub Puts : (ℕ → Type 0) → ℕ → Bool → Rb → Rb → Type 0
Puts IsPage page true rb rb' = IsRing (With IsPage page) rb' × AtWriter (data_begin page) rb rb'
Puts IsPage page false rb rb' = IsRing (With IsPage page) rb' × InFront page rb rb'

module _ (IsPage : ℕ → Type 0) (page : ℕ) (place : IsPlace (head page))
    (new : IsPage (head page) → ⊥) where
  -- The page is between `a` and `b`.
  abbrev Between : ℕ → ℕ → Memory → Type 0
  Between a b m = Linked (With IsPage page) m × Follows m a (head page) × Follows m (head page) b

  link_at :
      (m : Memory) (a b prev next : ℕ)
      → Linked IsPage m
      → IsPage a
      → IsPage b
      → Follows m a b
      → prev ≡ a + 8
      → next ≡ b + 8
      → Between a b (link m prev page next)
  link_at m a b prev next l qa qb f ep en =
      let not_new : (h : ℕ) → IsPage h → h ≢ head page = λ h q e. new (subst IsPage e q) in
      subst (Between a b)
        (sym (link-eq m a b prev page next (l.place a qa).0 (l.place b qb).0 ep en))
        (let (before, behind) =
            link-Follows m a (head page) b (l.place a qa) place (l.place b qb) (not_new a qa)
              (not_new b qb) in
          (link-Linked IsPage m a (head page) b l qa qb f place new, before, behind))

  -- The page comes before the one of `x`, where `x` is at the start of its data.
  link_before :
      (m : Memory) (x : ℕ)
      → Linked IsPage m
      → IsPage (head x)
      → x ≡ data_begin x
      → Linked (With IsPage page) (link m (get_prev m x) page x)
        × Follows (link m (get_prev m x) page x) (head page) (head x)
  link_before m x l q e =
      let n = neighbour IsPage m x l q in
      let b = link_at m n.before (head x) (get_prev m x) x l n.before_page q n.from n.prev e in
      (b.0, b.2)

  -- The page comes behind the one of `x`.
  link_behind :
      (m : Memory) (x : ℕ)
      → Linked IsPage m
      → IsPage (head x)
      → Linked (With IsPage page) (link m (data_begin x) page (get_next m x))
        × Follows (link m (data_begin x) page (get_next m x)) (head x) (head page)
  link_behind m x l q =
      let n = neighbour IsPage m x l q in
      let b =
        link_at m (head x) n.behind (data_begin x) (get_next m x) l q n.behind_page n.to refl
          n.next in
      (b.0, b.1)

  put_full-Puts : (rb : Rb) → IsRing IsPage rb → Puts IsPage page false rb (put_full page rb)
  unfolding put_full
  put_full-Puts rb i =
      if-elim (Puts IsPage page false rb) (rb.r == data_begin rb.r)
        (record rb { mem = link rb.mem (get_prev rb.mem rb.r) page rb.r; r = page })
        (record rb { mem = link rb.mem (data_begin rb.r) page (get_next rb.mem rb.r); r = page })
        (λ e.
          let start : rb.r ≡ data_begin rb.r = ground arith in
          let b = link_before rb.mem rb.r i.linked i.r_page start in
          (ring b.0, (refl, refl, inl (start, b.1))))
        (λ e.
          let b = link_behind rb.mem rb.r i.linked i.r_page in
          (ring b.0, (refl, refl, inr (ground arith, b.1))))
    where
      ring :
          {m : Memory}
          → Linked (With IsPage page) m
          → IsRing (With IsPage page) (record rb { mem = m; r = page })
      ring l = record {
        linked = l;
        w_page = inl i.w_page;
        w_low = i.w_low;
        w_high = i.w_high;
        r_page = inr refl;
      }

  put_empty-Puts :
      (rb : Rb)
      → page ≡ data_begin page
      → IsRing IsPage rb
      → IsRing (With IsPage page) (put_empty page rb) × AtWriter page rb (put_empty page rb)
  unfolding put_empty
  put_empty-Puts rb at_start i =
      if-elim (λ (x : Rb). IsRing (With IsPage page) x × AtWriter page rb x)
        (rb.w == data_begin rb.w)
        (record rb {
          mem = link rb.mem (get_prev rb.mem rb.w) page rb.w;
          r = if rb.r == rb.w then page else rb.r;
          w = page;
        })
        (record rb { mem = link rb.mem (data_begin rb.w) page (get_next rb.mem rb.w) })
        (λ e.
          let start : rb.w ≡ data_begin rb.w = ground arith in
          let b = link_before rb.mem rb.w i.linked i.w_page start in
          (
            record {
              linked = b.0;
              w_page = inr refl;
              w_low = omega (arith, at_start);
              w_high = omega (arith, at_start);
              r_page =
                  if-elim (λ x. With IsPage page (head x)) (rb.r == rb.w) page rb.r (λ f. inr refl)
                    (λ f. inl i.r_page);
            },
            inl (start, refl, refl, b.1),
          ))
        (λ e.
          let b = link_behind rb.mem rb.w i.linked i.w_page in
          (
            record {
              linked = b.0;
              w_page = inl i.w_page;
              w_low = i.w_low;
              w_high = i.w_high;
              r_page = inl i.r_page;
            },
            inr (ground arith, refl, refl, b.1),
          ))

module _ (IsPage : ℕ → Type 0) where
  -- `gtp_rb_put_page` on a ring in order, with a page outside of it: the pages with that page are one
  -- ring in order. A page that has not been read is where the reader goes on, linked before the
  -- reader's page, or behind it where a part of that has been read. A page that is empty is the
  -- writer's, linked before the writer's page, where nothing is written in that, and else behind it;
  -- the reader goes there only if it was at the writer.
  pub put_page-Puts :
      (page : ℕ) (is_empty : Bool) (rb : Rb)
      → IsPlace (head page)
      → (IsPage (head page) → ⊥)
      → IsRing IsPage rb
      → Puts IsPage page is_empty rb (put_page page is_empty rb)
  unfolding put_page
  put_page-Puts page true rb place new i =
      let same : head page ≡ head (data_begin page) = omega arith in
      subst
        (λ h.
          IsRing (λ x. IsPage x ⊎ (x ≡ h)) (put_empty (data_begin page) rb)
          × AtWriter (data_begin page) rb (put_empty (data_begin page) rb))
        (sym same)
        (put_empty-Puts IsPage (data_begin page) (subst IsPlace same place)
          (λ q. new (subst IsPage (sym same) q)) rb (omega arith) i)
  put_page-Puts page false rb place new i = put_full-Puts IsPage page place new rb i
