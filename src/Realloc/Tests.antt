-- ===== src/Realloc/Tests.antt =====
-- A buffer that grows, and the theorem about it.
use kgtp.Base.{
  ℕ, ◌≡◌, refl, ap, sym, ◌∙◌, arith, true, Option, some, List, [], ◌∷◌, length, zero, suc,
  replicate,
}
use kgtp.Realloc.{Grs, overwrite, take, must_grow, realloc, realloc_str}
use kgtp.Realloc.Append.{content, IsSound, Allocates, Appends, realloc_str-Appends}

abbrev vmalloc : ℕ → Option (List ℕ)
vmalloc n = some (replicate n 0)

length-replicate : (n : ℕ) → length {A = ℕ} (replicate n 0) ≡ n
length-replicate zero = refl
length-replicate (suc n) = ap suc (length-replicate n)

vmalloc-Allocates : Allocates vmalloc
vmalloc-Allocates n bs e =
    let same : replicate n 0 ≡ bs = cc in ap (λ xs. length xs) (sym same) ∙ length-replicate n

abbrev small : Grs
small = record { buf = some (1 ∷ 2 ∷ 0 ∷ []); size = 2; real_size = 3 }

small-IsSound : IsSound small
small-IsSound = record { within = omega arith; whole = refl }

realloc_str-Appends_example :
    Appends (7 ∷ 8 ∷ []) small (realloc_str vmalloc (7 ∷ 8 ∷ []) true small)
realloc_str-Appends_example =
    realloc_str-Appends vmalloc (7 ∷ 8 ∷ []) true small vmalloc-Allocates small-IsSound
      (omega arith)

grown-run : content (realloc_str vmalloc (7 ∷ 8 ∷ []) true small).1 ≡ 1 ∷ 2 ∷ 7 ∷ 8 ∷ []
unfolding content realloc_str realloc must_grow overwrite take
grown-run = refl
