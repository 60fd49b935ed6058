-- ===== src/Ring/Inside.antt =====
-- Writes to a part of a page, and what they leave of the ring.
use kgtp.Base.{
  ℕ, ◌+◌, ◌%◌, ◌≤◌, ◌<◌, ◌≡◌, refl, sym, ◌∙◌, ◌⊎◌, inl, inr, arith, Option, none, some, ltb,
  if-elim, Bool,
}
use mathlib.Core.Path.{subst}
use kgtp.Ring.Bytes.{Memory, load, store, load-cong, store-outside}
use kgtp.Ring.Pages.{Rb, head, data_begin, page_end, frame_align, data_max}
use kgtp.Ring.Write.{
  alloc, alloc_aligned, take_or_fail, take_bytes, next_page, end_page, enter_page,
}
use kgtp.Ring.Linked.{Linked-kept, Linked, Follows}
use kgtp.Ring.Inv.{IsRing}
use kgtp.Ring.Alloc.{Grants, alloc-Grants}

-- `m'` is `m`, but for bytes from `lo` on and below `hi`.
abbrev pub Inside : ℕ → ℕ → Memory → Memory → Type 0
Inside lo hi m m' = (x : ℕ) → (x < lo) ⊎ (hi ≤ x) → m' x ≡ m x

pub Inside-refl : (lo hi : ℕ) (m : Memory) → Inside lo hi m m
Inside-refl lo hi m x out = refl

pub Inside-trans :
    (lo hi : ℕ) (m m₁ m₂ : Memory) → Inside lo hi m m₁ → Inside lo hi m₁ m₂ → Inside lo hi m m₂
Inside-trans lo hi m m₁ m₂ f g x out = g x out ∙ f x out

pub Inside-store :
    (lo hi n : ℕ) (m m' : Memory) (a v : ℕ)
    → lo ≤ a
    → a + n ≤ hi
    → Inside lo hi m m'
    → Inside lo hi m (store n m' a v)
Inside-store lo hi n m m' a v low high f x (inl out) =
    store-outside n m' a v x (inl (omega arith)) ∙ f x (inl out)
Inside-store lo hi n m m' a v low high f x (inr out) =
    store-outside n m' a v x (inr (omega arith)) ∙ f x (inr out)

-- A number outside stays as it is.
pub load-Inside :
    (lo hi n : ℕ) (m m' : Memory) (a : ℕ)
    → (a + n ≤ lo) ⊎ (hi ≤ a)
    → Inside lo hi m m'
    → load n m' a ≡ load n m a
load-Inside lo hi n m m' a (inl low) f = load-cong n m' m a (λ x l h. f x (inl (omega arith)))
load-Inside lo hi n m m' a (inr high) f = load-cong n m' m a (λ x l h. f x (inr (omega arith)))

module _ (IsPage : ℕ → Type 0) where
  Follows-Inside :
      (lo hi : ℕ) (m m' : Memory) (g h k : ℕ)
      → g % 4096 ≡ 0
      → h % 4096 ≡ 0
      → k % 4096 ≡ 0
      → g + 8 ≤ lo
      → hi ≤ g + 4088
      → Inside lo hi m m'
      → Follows m h k
      → Follows m' h k
  Follows-Inside lo hi m m' g h k gp hp kp low high f l = record {
    forth = load-Inside lo hi 8 m m' (h + 4088) (apart (h + 4088) (omega arith)) f ∙ l.forth;
    back = load-Inside lo hi 8 m m' k (apart k (omega arith)) f ∙ l.back;
  }
    where
      apart : (x : ℕ) → (x + 8 ≤ g + 8) ⊎ (g + 4088 ≤ x) → (x + 8 ≤ lo) ⊎ (hi ≤ x)
      apart x (inl l) = inl (omega arith)
      apart x (inr l) = inr (omega arith)

  pub Linked-Inside :
      (lo hi : ℕ) (m m' : Memory) (g : ℕ)
      → IsPage g
      → g + 8 ≤ lo
      → hi ≤ g + 4088
      → Inside lo hi m m'
      → Linked IsPage m
      → Linked IsPage m'
  Linked-Inside lo hi m m' g page low high f l =
      Linked-kept IsPage m m'
        (λ h k p q fs.
          Follows-Inside lo hi m m' g h k (l.place g page).0 (l.place h p).0 (l.place k q).0 low
            high f fs)
        l

  -- What `gtp_rb_alloc` has given out: an entry of `n` bytes at `p`, and where `w` was before.
  pub record Granted (rb₀ : Rb) (n p : ℕ) (rb : Rb) : Type 0 where
    pub ring : IsRing IsPage rb
    pub low : data_begin p ≤ p
    pub high : p + n ≤ page_end p
    pub end : rb.w ≡ p + n
    pub same_page : head rb.w ≡ head p
    pub before : rb.prev_w ≡ rb₀.w

  abbrev pub GrantsAll : Rb → ℕ → Option ℕ × Rb → Type 0
  GrantsAll rb₀ n (none, rb) = IsRing IsPage rb
  GrantsAll rb₀ n (some p, rb) = Granted rb₀ n p rb

  -- `prev_w` is where `w` was.
  abbrev Noted : ℕ → Option ℕ × Rb → Type 0
  Noted w (none, rb) = Unit
  Noted w (some p, rb) = rb.prev_w ≡ w

  with_Noted :
      (rb₀ : Rb) (n : ℕ) (r : Option ℕ × Rb) → Grants IsPage n r → Noted rb₀.w r → GrantsAll rb₀ n r
  with_Noted rb₀ n (none, rb) i before = i
  with_Noted rb₀ n (some p, rb) (i, low, high, end, same_page) before = record {
    ring = i;
    low = low;
    high = high;
    end = end;
    same_page = same_page;
    before = before;
  }

  -- The page that is entered does not matter.
  abbrev KeepsPrev : ℕ → Option Rb → Type 0
  KeepsPrev w none = Unit
  KeepsPrev w (some rb) = rb.prev_w ≡ w

  take_kept : (w n : ℕ) (o : Option Rb) (rb : Rb) → KeepsPrev w o → Noted w (take_or_fail n o rb)
  unfolding take_or_fail
  take_kept w n none rb f = tt
  take_kept w n (some rb') rb f = f

  enter_kept : (id : ℕ) (rb : Rb) → (enter_page id rb).prev_w ≡ rb.prev_w
  enter_kept id rb = ground arith

  next_kept : (circular : Bool) (id : ℕ) (rb : Rb) → KeepsPrev rb.prev_w (next_page circular id rb)
  next_kept circular id rb = ground arith

  end_kept : (rb : Rb) → (end_page rb).prev_w ≡ rb.prev_w
  end_kept rb = ground arith

  aligned-Noted :
      (circular : Bool) (n id : ℕ) (rb : Rb) → Noted rb.prev_w (alloc_aligned circular n id rb)
  unfolding alloc_aligned
  aligned-Noted circular n id rb =
      if-elim (Noted rb.prev_w) (ltb (page_end rb.w) (rb.w + n))
        (take_or_fail n (next_page circular id (end_page rb)) (end_page rb)) (take_bytes n rb)
        (λ e. take_kept rb.prev_w n (next_page circular id (end_page rb)) (end_page rb) (
          subst (λ w. KeepsPrev w (next_page circular id (end_page rb))) (end_kept rb)
            (next_kept circular id (end_page rb))))
        (λ e. refl)

  pub alloc-GrantsAll :
      (circular : Bool) (size id : ℕ) (rb : Rb)
      → IsRing IsPage rb
      → GrantsAll rb (frame_align size) (alloc circular size id rb)
  unfolding alloc
  alloc-GrantsAll circular size id rb i =
      let n = frame_align size in
      with_Noted rb n (alloc circular size id rb) (alloc-Grants IsPage circular size id rb i) (
        if-elim (Noted rb.w) (ltb data_max n) (none, rb)
          (alloc_aligned circular n id (record rb { prev_w = rb.w })) (λ e. tt)
          (λ e. aligned-Noted circular n id (record rb { prev_w = rb.w })))

  -- The bytes of an entry are written, and `prev_frame`.
  pub fill-IsRing :
      (rb₀ rb : Rb) (n p : ℕ) (m : Memory) (f : ℕ)
      → Granted rb₀ n p rb
      → Inside p (p + n) rb.mem m
      → IsRing IsPage (record rb { mem = m; prev_frame = f })
  fill-IsRing rb₀ rb n p m f g inside = record {
    linked =
        Linked-Inside p (p + n) rb.mem m (head rb.w) g.ring.w_page
          (omega (arith, g.low, g.same_page)) (omega (arith, g.high, g.same_page)) inside
          g.ring.linked;
    w_page = g.ring.w_page;
    w_low = g.ring.w_low;
    w_high = g.ring.w_high;
    r_page = g.ring.r_page;
  }

  -- `GTP_RB_RELEASE`
  pub release-IsRing :
      (rb₀ rb : Rb) (n p : ℕ) (m : Memory)
      → IsRing IsPage rb₀
      → Granted rb₀ n p rb
      → Inside p (p + n) rb.mem m
      → IsRing IsPage (record rb { mem = m; w = rb.prev_w })
  release-IsRing rb₀ rb n p m i g inside = record {
    linked = (fill-IsRing rb₀ rb n p m rb.prev_frame g inside).linked;
    w_page = subst (λ w. IsPage (head w)) (sym g.before) i.w_page;
    w_low = omega (arith, g.before, i.w_low);
    w_high = omega (arith, g.before, i.w_high);
    r_page = g.ring.r_page;
  }
