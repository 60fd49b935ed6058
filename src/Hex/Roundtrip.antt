-- ===== src/Hex/Roundtrip.antt =====
-- gtp.c, the hexadecimal text of the remote protocol, written and read.
use kgtp.Base.{
  ℕ, zero, suc, Option, false, ◌+◌, ◌*◌, ◌/◌, ◌%◌, ◌^◌, ◌<◌, ◌≡◌, refl, ap, ◌∙◌, true, none, some,
  List, [], ◌∷◌, ◌++◌, ltb, ◌==◌, length, arith,
}
use kgtp.Hex.{
  hex2int, hex2ulongest_from, hex2ulongest, hex2string, digit, string2hex, parsed, bad_text,
  read_bytes, check_size, parse_bytes, parse_x,
}

hex2int-digit : (n : ℕ) → n < 16 → hex2int (digit n) ≡ some n
unfolding hex2int
hex2int-digit n lt = ground arith

-- Every number of the list is below `n`.
abbrev pub AllBelow : ℕ → List ℕ → Type 0
AllBelow n [] = Unit
AllBelow n (x ∷ xs) = (x < n) × AllBelow n xs

-- `hex2string` reads what `string2hex` has written, for a string of bytes below 128.
pub hex2string-string2hex : (s : List ℕ) → AllBelow 128 s → hex2string (string2hex s) ≡ s
unfolding hex2string string2hex
hex2string-string2hex [] all = refl
hex2string-string2hex (c ∷ cs) (low, all) =
    let small : ltb c 128 ≡ true = ground arith in
    let hi = hex2int-digit (c / 16) (omega arith) in
    let lo = hex2int-digit (c % 16) (omega arith) in
    rw (small, hi, lo, hex2string-string2hex cs all) (ap (λ x. x ∷ cs) (omega arith))

-- The text of bytes, two digits each, and the number that digits stand for.
abbrev pub text : List ℕ → List ℕ
text [] = []
text (b ∷ bs) = digit (b / 16) ∷ digit (b % 16) ∷ text bs

abbrev pub digits : List ℕ → List ℕ
digits [] = []
digits (d ∷ ds) = digit d ∷ digits ds

abbrev pub value_from : ℕ → List ℕ → ℕ
value_from v [] = v
value_from v (d ∷ ds) = value_from (v * 16 % 2 ^ 64 + d) ds

hex2ulongest-digits :
    (ds : List ℕ) (v c : ℕ) (cs : List ℕ)
    → AllBelow 16 ds
    → hex2int c ≡ none
    → hex2ulongest_from (digits ds ++ (c ∷ cs)) v ≡ (c ∷ cs, value_from v ds)
unfolding hex2ulongest_from
hex2ulongest-digits [] v c cs all stop = rw stop refl
hex2ulongest-digits (d ∷ ds) v c cs (low, all) stop =
    let same : d % 16 ≡ d = omega arith in
    rw (hex2int-digit d low, same) (hex2ulongest-digits ds (v * 16 % 2 ^ 64 + d) c cs all stop)

read_bytes-text :
    (bs rest : List ℕ) → AllBelow 256 bs → read_bytes (length bs) (text bs ++ rest) ≡ (bs, rest)
unfolding read_bytes
read_bytes-text [] rest all = refl
read_bytes-text (b ∷ bs) rest (low, all) =
    let hi = hex2int-digit (b / 16) (omega arith) in
    let lo = hex2int-digit (b % 16) (omega arith) in
    rw (hi, lo, read_bytes-text bs rest all) (ap (λ x. (x ∷ bs, rest)) (omega arith))

comma-none : hex2int 44 ≡ none
unfolding hex2int
comma-none = refl

-- A text of fewer bytes is read to its end.
pub read_bytes-end :
    (n : ℕ) (bs : List ℕ) → length bs < n → AllBelow 256 bs → read_bytes n (text bs) ≡ (bs, [])
unfolding read_bytes
read_bytes-end zero bs lt all = absurd (omega (arith, lt))
read_bytes-end (suc n) [] lt all = refl
read_bytes-end (suc n) (b ∷ bs) lt (low, all) =
    let hi = hex2int-digit (b / 16) (omega arith) in
    let lo = hex2int-digit (b % 16) (omega arith) in
    rw (hi, lo, read_bytes-end n bs (omega (arith, lt)) all) (ap (λ x. (x ∷ bs, [])) (omega arith))

module _ {M : Type 0} (kmalloc : ℕ → M → Option ℕ × M) (kfree : ℕ → M → M) where
  parse_bytes-text :
      (v buf : ℕ) (bs rest : List ℕ) (m m' : M)
      → kmalloc (length bs) m ≡ (some buf, m')
      → v ≡ length bs
      → length bs < 2 ^ 32
      → AllBelow 256 bs
      → parse_bytes kmalloc kfree (44 ∷ text bs ++ rest, v) m ≡ (parsed buf bs, rest, m')
  unfolding parse_bytes check_size
  parse_bytes-text v buf bs rest m m' memory size small bytes =
      let fits : v % 2 ^ 32 ≡ length bs = omega (arith, size, small) in
      let whole : (length bs == length bs) ≡ true = ground arith in
      rw (fits, memory, read_bytes-text bs rest bytes, whole) refl

  -- `gtp_parse_x` reads the text of an expression: the digits of its size, a comma, and two digits for
  -- each byte. Where the memory is there, it succeeds with the buffer and these bytes and leaves the
  -- rest of the text.
  pub parse_x-text :
      (d buf : ℕ) (ds bs rest : List ℕ) (m m' : M)
      → kmalloc (length bs) m ≡ (some buf, m')
      → AllBelow 16 (d ∷ ds)
      → value_from 0 (d ∷ ds) ≡ length bs
      → length bs < 2 ^ 32
      → AllBelow 256 bs
      → parse_x kmalloc kfree (digits (d ∷ ds) ++ (44 ∷ text bs ++ rest)) m
        ≡ (parsed buf bs, rest, m')
  unfolding parse_x hex2ulongest
  parse_x-text d buf ds bs rest m m' memory all size small bytes =
      ap (λ r. parse_bytes kmalloc kfree r m)
        (hex2ulongest-digits (d ∷ ds) 0 44 (text bs ++ rest) all comma-none)
      ∙ parse_bytes-text (value_from 0 (d ∷ ds)) buf bs rest m m' memory size small bytes

  -- Where the text has fewer bytes than its size says, the buffer is given back, and it stays noted.
  pub parse_x-short :
      (d buf : ℕ) (ds bs : List ℕ) (m m' : M)
      → kmalloc (value_from 0 (d ∷ ds)) m ≡ (some buf, m')
      → AllBelow 16 (d ∷ ds)
      → length bs < value_from 0 (d ∷ ds)
      → value_from 0 (d ∷ ds) < 2 ^ 32
      → AllBelow 256 bs
      → parse_x kmalloc kfree (digits (d ∷ ds) ++ (44 ∷ text bs)) m
        ≡ (bad_text (some buf), [], kfree buf m')
  unfolding parse_x hex2ulongest parse_bytes check_size
  parse_x-short d buf ds bs m m' memory all short small bytes =
      let v = value_from 0 (d ∷ ds) in
      let fits : v % 2 ^ 32 ≡ v = omega (arith, small) in
      let cut : (length bs == v) ≡ false = ground (arith, short) in
      ap (λ r. parse_bytes kmalloc kfree r m)
        (hex2ulongest-digits (d ∷ ds) 0 44 (text bs) all comma-none)
      ∙ rw (fits, memory, read_bytes-end v bs short bytes, cut) refl
