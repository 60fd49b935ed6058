-- ===== src/Ring/Linked.antt =====
-- gtp_rb.c, the double links of the pages of a ring buffer.
use kgtp.Base.{ℕ, ◌+◌, ◌%◌, ◌^◌, ◌≤◌, ◌≡◌, ◌∙◌, ◌⊎◌, inl, inr, arith}
use kgtp.Ring.Bytes.{Memory, load, store, load-store_apart}

-- The links between the page at `h` and the page at `k`, which point behind the first link.
pub record Follows (m : Memory) (h k : ℕ) : Type 0 where
  pub forth : load 8 m (h + 4088) ≡ k + 8
  pub back : load 8 m k ≡ h + 8

abbrev pub IsPlace : ℕ → Type 0
IsPlace h = (h % 4096 ≡ 0) × (h + 4096 ≤ 2 ^ 64)

-- From `h` on, some steps lead to a number.
pub data Leads (R : ℕ → ℕ → Type 0) (h : ℕ) : ℕ → Type 0 where
  here : Leads R h h
  on : {x y : ℕ} → Leads R h x → R x y → Leads R h y

pub Leads-trans : (R : ℕ → ℕ → Type 0) (h x k : ℕ) → Leads R h x → Leads R x k → Leads R h k
Leads-trans R h x _ l here = l
Leads-trans R h x _ l (on {x = y} l' r) = on (Leads-trans R h x y l l') r

pub Leads-map :
    (R S : ℕ → ℕ → Type 0) (h k : ℕ) → ((x y : ℕ) → R x y → Leads S x y) → Leads R h k → Leads S h k
Leads-map R S h _ to here = here
Leads-map R S h _ to (on {x} {y} l r) = Leads-trans S h x y (Leads-map R S h x to l) (to x y r)

-- A step from a page to the page behind it.
abbrev pub Next : (ℕ → Type 0) → Memory → ℕ → ℕ → Type 0
Next IsPage m h k = IsPage h × IsPage k × Follows m h k

-- Every page has a page behind it and one before it, and the steps from any page lead to every page:
-- the pages are one ring.
pub record Linked (IsPage : ℕ → Type 0) (m : Memory) : Type 0 where
  pub place : (h : ℕ) → IsPage h → IsPlace h
  pub next : (h : ℕ) → IsPage h → (k : ℕ) × IsPage k × Follows m h k
  pub prev : (k : ℕ) → IsPage k → (h : ℕ) × IsPage h × Follows m h k
  pub around : (h k : ℕ) → IsPage h → IsPage k → Leads (Next IsPage m) h k

pub Follows-unique_next : (m : Memory) (h k k' : ℕ) → Follows m h k → Follows m h k' → k ≡ k'
Follows-unique_next m h k k' f g = omega (arith, f.forth, g.forth)

pub Follows-unique_prev : (m : Memory) (h h' k : ℕ) → Follows m h k → Follows m h' k → h ≡ h'
Follows-unique_prev m h h' k f g = omega (arith, f.back, g.back)

-- A number inside a page is no link.
pub Follows-store :
    (n : ℕ) (m : Memory) (a v g h k : ℕ)
    → g % 4096 ≡ 0
    → h % 4096 ≡ 0
    → k % 4096 ≡ 0
    → g + 8 ≤ a
    → a + n ≤ g + 4088
    → Follows m h k
    → Follows (store n m a v) h k
Follows-store n m a v g h k gp hp kp lo hi f = record {
  forth = load-store_apart 8 n m (h + 4088) a v (apart (h + 4088) (omega arith)) ∙ f.forth;
  back = load-store_apart 8 n m k a v (apart k (omega arith)) ∙ f.back;
}
  where
    apart : (x : ℕ) → (x + 8 ≤ g + 8) ⊎ (g + 4088 ≤ x) → (x + 8 ≤ a) ⊎ (a + n ≤ x)
    apart x (inl l) = inl (omega arith)
    apart x (inr l) = inr (omega arith)

-- Where the links between the pages stay, the pages are a ring still.
pub Linked-kept :
    (IsPage : ℕ → Type 0) (m m' : Memory)
    → ((h k : ℕ) → IsPage h → IsPage k → Follows m h k → Follows m' h k)
    → Linked IsPage m
    → Linked IsPage m'
Linked-kept IsPage m m' kept l = record {
  place = l.place;
  next = λ h p. let (k, q, f) = l.next h p in (k, q, kept h k p q f);
  prev = λ k q. let (h, p, f) = l.prev k q in (h, p, kept h k p q f);
  around = λ h k p q.
      Leads-map (Next IsPage m) (Next IsPage m') h k
        (λ x y (px, py, f). on here (px, py, kept x y px py f)) (l.around h k p q);
}

pub Linked-store :
    (IsPage : ℕ → Type 0) (n : ℕ) (m : Memory) (a v g : ℕ)
    → IsPage g
    → g + 8 ≤ a
    → a + n ≤ g + 4088
    → Linked IsPage m
    → Linked IsPage (store n m a v)
Linked-store IsPage n m a v g page lo hi l =
    Linked-kept IsPage m (store n m a v)
      (λ h k p q f.
        Follows-store n m a v g h k (l.place g page).0 (l.place h p).0 (l.place k q).0 lo hi f)
      l
