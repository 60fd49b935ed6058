-- ===== src/Hex/Tests.antt =====
-- Texts, and the theorems about them.
use kgtp.Base.{some, ◌+◌, ℕ, ◌≡◌, refl, arith, List, [], ◌∷◌, ◌++◌}
use kgtp.Hex.{hex2int, hex2ulongest, hex2ulongest_from, hex2string, string2hex, parsed, parse_x}
use kgtp.Hex.Roundtrip.{digits, text, hex2string-string2hex, parse_x-text}

-- "kgtp"
abbrev name : List ℕ
name = 107 ∷ 103 ∷ 116 ∷ 112 ∷ []

name-text : string2hex name ≡ 54 ∷ 98 ∷ 54 ∷ 55 ∷ 55 ∷ 52 ∷ 55 ∷ 48 ∷ []
unfolding string2hex
name-text = refl

-- "fF" and a space
mixed_case : hex2ulongest (102 ∷ 70 ∷ 32 ∷ []) ≡ (32 ∷ [], 255)
unfolding hex2ulongest hex2ulongest_from hex2int
mixed_case = refl

hex2string-string2hex_example : hex2string (string2hex name) ≡ name
hex2string-string2hex_example =
    hex2string-string2hex name (omega arith, (omega arith, (omega arith, (omega arith, tt))))

-- "3,220527" and a NUL
parse_x-text_example :
    parse_x
      (λ size m. (some m, m + 1))
      (λ b m. m)
      (digits (3 ∷ []) ++ (44 ∷ text (0x22 ∷ 5 ∷ 0x27 ∷ []) ++ []))
      7
    ≡ (parsed 7 (0x22 ∷ 5 ∷ 0x27 ∷ []), [], 8)
parse_x-text_example =
    parse_x-text (λ size m. (some m, m + 1)) (λ b m. m) 3 7 [] (0x22 ∷ 5 ∷ 0x27 ∷ []) [] 7 8 refl
      (omega arith, tt) refl (omega arith) (omega arith, (omega arith, (omega arith, tt)))
