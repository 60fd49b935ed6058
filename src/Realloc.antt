-- ===== src/Realloc.antt =====
-- gtp.c, `struct gtp_realloc_s`: the buffer in which the text for GDB grows.
use kgtp.Base.{
  ℕ, zero, suc, ◌+◌, ◌-◌, ◌%◌, ◌^◌, ◌≡◌, ◌≤◌, Bool, true, false, not, ◌&&◌, ◌||◌, Option, none,
  some, List, [], ◌∷◌, ltb, ◌==◌, if◌then◌else◌, length, replicate,
}
pub mod Append
mod Tests

-- `buf`, with the bytes that it points to
pub record Grs : Type 0 where
  pub buf : Option (List ℕ)
  pub size : ℕ
  pub real_size : ℕ

-- `memcpy` to the place `at` of a buffer
unfoldable pub overwrite : List ℕ → ℕ → List ℕ → List ℕ
overwrite [] at xs = []
overwrite (b ∷ bs) zero [] = b ∷ bs
overwrite (b ∷ bs) zero (x ∷ xs) = x ∷ overwrite bs zero xs
overwrite (b ∷ bs) (suc at) xs = b ∷ overwrite bs at xs

-- The first bytes of a buffer
unfoldable pub take : ℕ → List ℕ → List ℕ
take zero xs = []
take (suc n) [] = []
take (suc n) (x ∷ xs) = x ∷ take n xs

abbrev pub bytes_of : Option (List ℕ) → List ℕ
bytes_of none = []
bytes_of (some bs) = bs

-- All fields are 0.
abbrev pub cleared : Grs
cleared = record { buf = none; size = 0; real_size = 0 }

-- `vmalloc` is outside: the bytes that it returns, if it returns any.
module _ (vmalloc : ℕ → Option (List ℕ)) where
  abbrev pub allocated : ℕ → Option (List ℕ) → Grs → Bool × Grs
  allocated size none grs = (false, grs)
  allocated size (some bs) grs = (true, record { buf = some bs; size = 0; real_size = size })

  -- `gtp_realloc_alloc`: whether it returns 0
  unfoldable pub realloc_alloc : ℕ → Grs → Bool × Grs
  realloc_alloc size grs =
      if size == 0
      then (true, record { buf = none; size = 0; real_size = 0 })
      else allocated size (vmalloc size) grs

  -- Whether `gtp_realloc` takes a new buffer
  unfoldable pub must_grow : ℕ → Bool → Grs → Bool
  must_grow size is_end grs =
      let want = (grs.size + size) % 2 ^ 64 in
      ltb grs.real_size want || (is_end && not (grs.real_size == want))

  -- `return grs->buf + grs->size - size;`: without a buffer, the place 0 is NULL.
  abbrev pub pointer : Option (List ℕ) → ℕ → Option ℕ
  pointer none zero = none
  pointer none (suc at) = some (suc at)
  pointer (some bs) at = some at

  -- `grs->size += size;`, and the place before it
  abbrev pub give : ℕ → Grs → Option ℕ × Grs
  give size grs = (pointer grs.buf grs.size, record grs { size = (grs.size + size) % 2 ^ 64 })

  abbrev pub grown : ℕ → ℕ → Option (List ℕ) → Grs → Option ℕ × Grs
  grown size real none grs = (none, cleared)
  grown size real (some tmp) grs = give size (record grs {
    buf = some (overwrite tmp 0 (take grs.size (bytes_of grs.buf)));
    real_size = real;
  })

  -- `gtp_realloc`: the place in the buffer of the bytes that are given out, or none
  unfoldable pub realloc : ℕ → Bool → Grs → Option ℕ × Grs
  unfolding must_grow overwrite take
  realloc size is_end grs =
      let want = (grs.size + size) % 2 ^ 64 in
      let real = if is_end then want else (want + 100) % 2 ^ 64 in
      if must_grow size is_end grs then grown size real (vmalloc real) grs else give size grs

  abbrev pub put_str : List ℕ → Option ℕ × Grs → Bool × Grs
  put_str str (none, grs) = (false, grs)
  put_str str (some at, grs) =
      (true, record grs { buf = some (overwrite (bytes_of grs.buf) at str) })

  -- `gtp_realloc_str`, for a string of less than 2 ^ 31 bytes: whether it returns 0
  unfoldable pub realloc_str : List ℕ → Bool → Grs → Bool × Grs
  unfolding realloc overwrite
  realloc_str str is_end grs = put_str str (realloc (length str) is_end grs)

-- `gtp_realloc_reset`
abbrev pub realloc_reset : Grs → Grs
realloc_reset grs = record grs { size = 0 }

-- `gtp_realloc_is_alloced` and `gtp_realloc_is_empty`
abbrev pub is_alloced : Grs → Bool
is_alloced grs = elim grs.buf [ none ↦ false | some bs ↦ true ]

abbrev pub is_empty : Grs → Bool
is_empty grs = grs.size == 0

-- `gtp_realloc_sub_size`
abbrev pub sub_size : ℕ → Grs → Grs
sub_size size grs = record grs { size = (grs.size + 2 ^ 64 - size % 2 ^ 64) % 2 ^ 64 }
