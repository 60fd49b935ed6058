-- ===== src/Ring/Bytes.antt =====
-- The memory that the ring buffer lies in: bytes, and little-endian numbers of some bytes.
use kgtp.Base.{
  ℕ, zero, suc, ◌+◌, ◌*◌, ◌/◌, ◌%◌, ◌≤◌, ◌<◌, ◌≡◌, refl, ◌∙◌, ◌⊎◌, inl, inr, ◌==◌, if◌then◌else◌,
  arith,
}

abbrev pub Memory : Type 0
Memory = ℕ → ℕ

abbrev pub put_byte : Memory → ℕ → ℕ → Memory
put_byte m a b x = if x == a then b else m x

-- `n` bytes at `a`
unfoldable pub load : ℕ → Memory → ℕ → ℕ
load zero m a = 0
load (suc n) m a = m a + 256 * load n m (a + 1)

unfoldable pub store : ℕ → Memory → ℕ → ℕ → Memory
store zero m a v = m
store (suc n) m a v = put_byte (store n m (a + 1) (v / 256)) a (v % 256)

-- 256 to the power of `n`
unfoldable pub limit : ℕ → ℕ
limit zero = 1
limit (suc n) = 256 * limit n

pub store-outside : (n : ℕ) (m : Memory) (a v x : ℕ) → (x < a) ⊎ (a + n ≤ x) → store n m a v x ≡ m x
unfolding store
store-outside zero m a v x h = refl
store-outside (suc n) m a v x (inl low) =
    ground (arith, store-outside n m (a + 1) (v / 256) x (inl (omega arith)))
store-outside (suc n) m a v x (inr high) =
    ground (arith, store-outside n m (a + 1) (v / 256) x (inr (omega arith)))

pub load-cong :
    (n : ℕ) (m m' : Memory) (a : ℕ)
    → ((x : ℕ) → a ≤ x → x < a + n → m x ≡ m' x)
    → load n m a ≡ load n m' a
unfolding load
load-cong zero m m' a h = refl
load-cong (suc n) m m' a h = omega (
  arith,
  h a (omega arith) (omega arith),
  load-cong n m m' (a + 1) (λ x lo hi. h x (omega arith) (omega arith)),
)

-- Numbers that do not overlap do not change each other.
pub load-store_apart :
    (n k : ℕ) (m : Memory) (a b v : ℕ)
    → (a + n ≤ b) ⊎ (b + k ≤ a)
    → load n (store k m b v) a ≡ load n m a
load-store_apart n k m a b v (inl low) =
    load-cong n (store k m b v) m a (λ x lo hi. store-outside k m b v x (inl (omega arith)))
load-store_apart n k m a b v (inr high) =
    load-cong n (store k m b v) m a (λ x lo hi. store-outside k m b v x (inr (omega arith)))

pub load-store_same : (n : ℕ) (m : Memory) (a v : ℕ) → v < limit n → load n (store n m a v) a ≡ v
unfolding load store limit
load-store_same zero m a v h = omega arith
load-store_same (suc n) m a v h =
    let low = store n m (a + 1) (v / 256) in
    let rest : load n (store (suc n) m a v) (a + 1) ≡ v / 256 =
      load-cong n (store (suc n) m a v) low (a + 1) (λ x lo hi. ground arith)
      ∙ load-store_same n m (a + 1) (v / 256) (omega arith) in
    let here : store (suc n) m a v a ≡ v % 256 = ground arith in omega (arith, rest, here)
