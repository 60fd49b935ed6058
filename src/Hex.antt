-- ===== src/Hex.antt =====
-- gtp.c, the hexadecimal text of the remote protocol. A string is the list of its bytes without the
-- NUL at its end.
use kgtp.Base.{
  ℕ, zero, suc, ◌+◌, ◌-◌, ◌*◌, ◌/◌, ◌%◌, ◌^◌, Bool, true, false, Option, none, some, List, [], ◌∷◌,
  ◌++◌, ltb, leb, ◌==◌, ◌&&◌, if◌then◌else◌, length,
}
pub mod Roundtrip
mod Tests

-- `hex2int`
unfoldable pub hex2int : ℕ → Option ℕ
hex2int c =
    if leb 48 c && leb c 57
    then some (c - 48)
    else if leb 97 c && leb c 102
    then some (c - 97 + 10)
    else if leb 65 c && leb c 70
    then some (c - 65 + 10)
    else none

-- A digit, if it is there.
abbrev pub on_digit {ℓ} : {A : Type ℓ} → Option ℕ → A → (ℕ → A) → A
on_digit none end go = end
on_digit (some i) end go = go i

-- `hex2ulongest` from the value that it has read so far: the rest of the text, and the value. The
-- last four bits of `*u64 << 4` are 0, so that `|` adds.
unfoldable pub hex2ulongest_from : List ℕ → ℕ → List ℕ × ℕ
hex2ulongest_from [] v = ([], v)
hex2ulongest_from (c ∷ cs) v =
    on_digit (hex2int c) (c ∷ cs, v) (λ i. hex2ulongest_from cs (v * 16 % 2 ^ 64 + i % 16))

-- `hex2ulongest`
unfoldable pub hex2ulongest : List ℕ → List ℕ × ℕ
unfolding hex2ulongest_from
hex2ulongest pkg = hex2ulongest_from pkg 0

-- Two digits, if both are there.
abbrev pub both {ℓ} : {A : Type ℓ} → Option ℕ → Option ℕ → A → (ℕ → ℕ → A) → A
both (some i) (some j) end go = go i j
both _ _ end go = end

-- `hex2string`
unfoldable pub hex2string : List ℕ → List ℕ
hex2string [] = []
hex2string (a ∷ []) = []
hex2string (a ∷ b ∷ cs) =
    let rest = hex2string cs in both (hex2int a) (hex2int b) [] (λ i j. (i * 16 + j) % 256 ∷ rest)

-- A digit of `%x`
abbrev pub digit : ℕ → ℕ
digit n = if ltb n 10 then 48 + n else 97 + n - 10

-- `sprintf(out, "%02x", pkg[0])` with `out += 2`: a `char` from 128 on is negative, its text starts
-- by "ffffff", and all but the first two digits are written over.
abbrev pub byte_text : ℕ → List ℕ
byte_text c = if ltb c 128 then digit (c / 16) ∷ digit (c % 16) ∷ [] else digit 15 ∷ digit 15 ∷ []

-- `string2hex`
unfoldable pub string2hex : List ℕ → List ℕ
string2hex [] = []
string2hex (c ∷ cs) = byte_text c ++ string2hex cs

-- What `gtp_parse_x` returns, with the block of the buffer and the bytes in it where it succeeds. Where
-- the text is wrong, the pointer to the buffer stays as it is, NULL or the block of memory.
pub data Parsed : Type 0 where
  parsed : ℕ → List ℕ → Parsed
  bad_text : Option ℕ → Parsed
  no_memory : Parsed

-- The loop over at most `n` bytes: what it has read, and the rest of the text.
unfoldable pub read_bytes : ℕ → List ℕ → List ℕ × List ℕ
read_bytes zero pkg = ([], pkg)
read_bytes (suc n) [] = ([], [])
read_bytes (suc n) (a ∷ []) = ([], a ∷ [])
read_bytes (suc n) (a ∷ b ∷ cs) =
    let (bytes, rest) = read_bytes n cs in
    both (hex2int a) (hex2int b) ([], a ∷ b ∷ cs) (λ h l. ((h * 16 + l) % 256 ∷ bytes, rest))

-- `kmalloc` and `kfree` are outside, on the state `M` of the memory.
module _ {M : Type 0} (kmalloc : ℕ → M → Option ℕ × M) (kfree : ℕ → M → M) where
  -- Behind the loop: `if (i != ae->u.exp.size)`.
  unfoldable pub check_size : ℕ → ℕ → List ℕ × List ℕ → M → Parsed × List ℕ × M
  check_size buf size (bytes, rest) m =
      if length bytes == size
      then (parsed buf bytes, rest, m)
      else (bad_text (some buf), rest, kfree buf m)

  abbrev pub with_buffer : ℕ → List ℕ → Option ℕ × M → Parsed × List ℕ × M
  with_buffer size pkg (none, m) = (no_memory, pkg, m)
  with_buffer size pkg (some buf, m) = check_size buf size (read_bytes size pkg) m

  -- Behind the size
  unfoldable pub parse_bytes : List ℕ × ℕ → M → Parsed × List ℕ × M
  unfolding check_size read_bytes
  parse_bytes ([], v) m = (bad_text none, [], m)
  parse_bytes (c ∷ cs, v) m =
      let size = v % 2 ^ 32 in
      if c == 44 then with_buffer size cs (kmalloc size m) else (bad_text none, c ∷ cs, m)

  -- `gtp_parse_x`, with the rest of the text
  unfoldable pub parse_x : List ℕ → M → Parsed × List ℕ × M
  unfolding parse_bytes hex2ulongest
  parse_x [] m = (bad_text none, [], m)
  parse_x pkg m = parse_bytes (hex2ulongest pkg) m
