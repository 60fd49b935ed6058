-- ===== src/Realloc/Append.antt =====
-- gtp.c, `gtp_realloc_str` against a list of bytes that grows at its end.
use kgtp.Base.{
  ℕ, zero, suc, ◌+◌, ◌%◌, ◌^◌, ◌≡◌, ◌≤◌, ◌<◌, refl, sym, ap, Option-cases, inl, inr, ◌∙◌, arith,
  Bool, true, false, Option, none, some, List, [], ◌∷◌, ◌++◌, if◌then◌else◌, if-elim, length,
}
use mathlib.Core.Path.{subst}
use kgtp.Realloc.{
  Grs, overwrite, take, bytes_of, cleared, must_grow, pointer, give, grown, realloc, put_str,
  realloc_str,
}

-- What a reader sees: the bytes that have been given out.
unfoldable pub content : Grs → List ℕ
content grs = take grs.size (bytes_of grs.buf)

-- What has been given out is in the buffer.
pub record IsSound (grs : Grs) : Type 0 where
  pub within : grs.size ≤ grs.real_size
  pub whole : length (bytes_of grs.buf) ≡ grs.real_size

-- A new buffer has the size that was asked for.
abbrev pub Allocates : (ℕ → Option (List ℕ)) → Type 0
Allocates vmalloc = (n : ℕ) (bs : List ℕ) → vmalloc n ≡ some bs → length bs ≡ n

length-overwrite : (bs xs : List ℕ) (at : ℕ) → length (overwrite bs at xs) ≡ length bs
unfolding overwrite
length-overwrite [] xs at = refl
length-overwrite (b ∷ bs) [] zero = refl
length-overwrite (b ∷ bs) (x ∷ xs) zero = ap suc (length-overwrite bs xs zero)
length-overwrite (b ∷ bs) xs (suc at) = ap suc (length-overwrite bs xs at)

take-zero : (bs xs : List ℕ) → take zero bs ++ xs ≡ xs
unfolding take
take-zero bs xs = refl

take-overwrite :
    (bs xs : List ℕ) (at n : ℕ)
    → n ≡ at + length xs
    → n ≤ length bs
    → take n (overwrite bs at xs) ≡ take at bs ++ xs
unfolding overwrite take
take-overwrite bs [] zero zero e fits = refl
take-overwrite bs [] zero (suc n) e fits = absurd (omega (arith, e))
take-overwrite bs (x ∷ xs) zero zero e fits = absurd (omega (arith, e))
take-overwrite bs xs (suc at) zero e fits = absurd (omega (arith, e))
take-overwrite [] xs at (suc n) e fits = absurd (omega (arith, fits))
take-overwrite (b ∷ bs) (x ∷ xs) zero (suc n) e fits =
    ap (λ ys. x ∷ ys)
      (take-overwrite bs xs zero n (omega (arith, e)) (omega (arith, fits)) ∙ take-zero bs xs)
take-overwrite (b ∷ bs) xs (suc at) (suc n) e fits =
    ap (λ ys. b ∷ ys) (take-overwrite bs xs at n (omega (arith, e)) (omega (arith, fits)))

length-take : (n : ℕ) (xs : List ℕ) → n ≤ length xs → length (take n xs) ≡ n
unfolding take
length-take zero xs fits = refl
length-take (suc n) [] fits = absurd (omega (arith, fits))
length-take (suc n) (x ∷ xs) fits = ap suc (length-take n xs (omega (arith, fits)))

-- What has been given out and is not written yet is behind the old content.
record Given (n : ℕ) (grs grs' : Grs) : Type 0 where
  sized : grs'.size ≡ grs.size + n
  within : grs'.size ≤ grs'.real_size
  whole : length (bytes_of grs'.buf) ≡ grs'.real_size
  kept : take grs.size (bytes_of grs'.buf) ≡ content grs

abbrev GivenIf : ℕ → Grs → Option ℕ × Grs → Type 0
GivenIf n grs (none, grs') = grs' ≡ cleared
GivenIf n grs (some at, grs') = (at ≡ grs.size) × Given n grs grs'

module _ (vmalloc : ℕ → Option (List ℕ)) (allocates : Allocates vmalloc) (n : ℕ) (grs : Grs)
    (sound : IsSound grs) (small : grs.size + n + 100 < 2 ^ 64) where
  want-is : (grs.size + n) % 2 ^ 64 ≡ grs.size + n
  want-is = omega (arith, small)

  grown-GivenIf :
      (real : ℕ) (o : Option (List ℕ))
      → ((bs : List ℕ) → o ≡ some bs → length bs ≡ real)
      → grs.size + n ≤ real
      → GivenIf n grs (grown vmalloc n real o grs)
  unfolding content
  grown-GivenIf real none full room = refl
  grown-GivenIf real (some tmp) full room =
      let old = take grs.size (bytes_of grs.buf) in
      let old_length : length old ≡ grs.size =
        length-take grs.size (bytes_of grs.buf) (omega (arith, sound.within, sound.whole)) in
      let tmp_length : length tmp ≡ real = full tmp refl in
      (
        refl,
        record {
          sized = want-is;
          within = omega (arith, want-is, room);
          whole = length-overwrite tmp old 0 ∙ tmp_length;
          kept =
              take-overwrite tmp old 0 grs.size (omega (arith, old_length))
                (omega (arith, tmp_length, room))
              ∙ take-zero tmp old;
        },
      )

  -- Without a buffer nothing is given out.
  null-GivenIf : grs.buf ≡ none → grs.size + n ≤ grs.real_size → GivenIf n grs (give vmalloc n grs)
  null-GivenIf null room =
      let empty : 0 ≡ grs.real_size = ap (λ o. length (bytes_of o)) (sym null) ∙ sound.whole in
      let result : Option (List ℕ) → ℕ → ℕ → ℕ → Option ℕ × Grs = λ buf at size real.
        (pointer vmalloc buf at, record { buf = buf; size = size; real_size = real }) in
      let size_is : grs.size ≡ 0 = omega (arith, empty, room) in
      let new_is : (grs.size + n) % 2 ^ 64 ≡ 0 = omega (arith, empty, room) in
      let none_given : give vmalloc n grs ≡ result none 0 0 0 =
        ap (λ o. result o grs.size ((grs.size + n) % 2 ^ 64) grs.real_size) null
        ∙ ap (λ at. result none at ((grs.size + n) % 2 ^ 64) grs.real_size) size_is
        ∙ ap (λ size. result none 0 size grs.real_size) new_is
        ∙ ap (λ real. result none 0 0 real) (sym empty) in
      subst (GivenIf n grs) (sym none_given) refl

  give-GivenIf : grs.size + n ≤ grs.real_size → GivenIf n grs (give vmalloc n grs)
  unfolding content
  give-GivenIf room = elim (Option-cases grs.buf) [
    | inl null ↦ null-GivenIf null room
    | inr (bs, e) ↦
        subst
          (λ o.
            GivenIf n grs
              (pointer vmalloc o grs.size, record grs { size = (grs.size + n) % 2 ^ 64 }))
          (sym e)
          (
            refl,
            record {
              sized = want-is;
              within = omega (arith, want-is, room);
              whole = sound.whole;
              kept = refl;
            },
          )
  ]

  realloc-GivenIf : (is_end : Bool) → GivenIf n grs (realloc vmalloc n is_end grs)
  unfolding realloc must_grow
  realloc-GivenIf is_end =
      let want = (grs.size + n) % 2 ^ 64 in
      let real = if is_end then want else (want + 100) % 2 ^ 64 in
      if-elim (GivenIf n grs) (must_grow vmalloc n is_end grs)
        (grown vmalloc n real (vmalloc real) grs) (give vmalloc n grs)
        (λ e. grown-GivenIf real (vmalloc real) (allocates real) (
          if-elim (λ r. grs.size + n ≤ r) is_end want ((want + 100) % 2 ^ 64)
            (λ e'. omega (arith, want-is)) (λ e'. omega (arith, want-is, small))))
        (λ e. give-GivenIf (ground (arith, e, want-is)))

-- The abstract view: `str` is appended, or everything is given up.
abbrev pub Appends : List ℕ → Grs → Bool × Grs → Type 0
Appends str grs (true, grs') = (content grs' ≡ content grs ++ str) × IsSound grs'
Appends str grs (false, grs') = grs' ≡ cleared

put_str-Appends :
    (vmalloc : ℕ → Option (List ℕ)) (str : List ℕ) (grs : Grs) (r : Option ℕ × Grs)
    → GivenIf (length str) grs r
    → Appends str grs (put_str vmalloc str r)
unfolding content
put_str-Appends vmalloc str grs (none, grs') g = g
put_str-Appends vmalloc str grs (some at, grs') (at_is, g) =
    let buf = bytes_of grs'.buf in
    (
      take-overwrite buf str at grs'.size (omega (arith, g.sized, at_is))
            (omega (arith, g.within, g.whole))
          ∙ ap (λ k. take k buf ++ str) at_is
          ∙ ap (λ xs. xs ++ str) g.kept,
      record { within = g.within; whole = length-overwrite buf str at ∙ g.whole },
    )

-- `gtp_realloc_str` on a buffer that holds what it has given out, where the sizes do not wrap: it
-- appends the string to the content, whether or not it takes a new buffer and whether or not this
-- is the end, and the buffer still holds its content; or, where there is no memory, or where there is
-- no buffer and the string is empty, it fails, and all fields are 0.
pub realloc_str-Appends :
    (vmalloc : ℕ → Option (List ℕ)) (str : List ℕ) (is_end : Bool) (grs : Grs)
    → Allocates vmalloc
    → IsSound grs
    → grs.size + length str + 100 < 2 ^ 64
    → Appends str grs (realloc_str vmalloc str is_end grs)
unfolding realloc_str
realloc_str-Appends vmalloc str is_end grs allocates sound small =
    put_str-Appends vmalloc str grs (realloc vmalloc (length str) is_end grs)
      (realloc-GivenIf vmalloc allocates (length str) grs sound small is_end)
