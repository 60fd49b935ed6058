-- ===== src/Packet/Only.antt =====
-- gtp.c, `gtp_list_find_without_addr_do_check` against all places of a number.
use kgtp.Base.{
  ℕ, ◌+◌, ◌≡◌, refl, Option, none, some, List, [], ◌∷◌, ◌==◌, if◌then◌else◌, Bool-cases, inl, inr,
}
use kgtp.Packet.{Entry}
use kgtp.Packet.Entries.{find_num_from, find_num}

-- The places of the tracepoints with the number, from the place `i` on
unfoldable pub places : ℕ → ℕ → List Entry → List ℕ
places num i [] = []
places num i (e ∷ es) = let rest = places num (i + 1) es in if e.num == num then i ∷ rest else rest

-- The element of a list that has one
unfoldable pub only : List ℕ → Option ℕ
only [] = none
only (i ∷ []) = some i
only (i ∷ j ∷ rest) = none

from_found :
    (num i j : ℕ) (es : List Entry) → find_num_from num i (some j) es ≡ only (j ∷ places num i es)
unfolding find_num_from places only
from_found num i j [] = refl
from_found num i j (e ∷ es) = elim (Bool-cases (e.num == num)) [
  | inl same ↦ rw same refl
  | inr apart ↦ rw apart (from_found num (i + 1) j es)
]

from_none : (num i : ℕ) (es : List Entry) → find_num_from num i none es ≡ only (places num i es)
unfolding find_num_from places only
from_none num i [] = refl
from_none num i (e ∷ es) = elim (Bool-cases (e.num == num)) [
  | inl same ↦ rw same (from_found num (i + 1) i es)
  | inr apart ↦ rw apart (from_none num (i + 1) es)
]

-- `gtp_list_find_without_addr_do_check` returns the tracepoint with the number, where exactly one in
-- the list has it, and nothing where none has it or several have.
pub find_num-only : (num : ℕ) (es : List Entry) → find_num num es ≡ only (places num 0 es)
unfolding find_num
find_num-only num es = from_none num 0 es
