-- ===== src/Packet/Tests.antt =====
-- Commands of the remote protocol, and the theorems about them.
use kgtp.Base.{
  ◌++◌, ℕ, ◌≡◌, ◌≢◌, refl, arith, true, false, Option, none, some, List, [], ◌∷◌, inl, inr,
}
use kgtp.Hex.{hex2ulongest, hex2ulongest_from, hex2int}
use kgtp.Packet.{Session, Reply, reply_ok, reply_invalid, reply_unsupported, alloc}
use kgtp.Packet.Entries.{
  new_entry, list_find, list_add, find_num, find_num_from, src_add, change, disable_find,
}
use kgtp.Packet.Qtdp.{
  out, turn, turns, save, text_before, place, add_actions, fields, num_addr, qtdp,
}
use kgtp.Packet.Keys.{keys}
use kgtp.Packet.Unique.{IsDistinct, DistinctAfter, qtdp-IsDistinct}
use kgtp.Packet.Again.{qtdp-refuses_again}
use kgtp.Packet.Ends.{qtdp-Ends}
use kgtp.Packet.Only.{places, only, find_num-only}
use kgtp.Hex.Roundtrip.{digits, text}
use kgtp.Packet.FreedTwice.{turn-frees_twice}

abbrev session : Session
session = record {
  started = false;
  entries = new_entry 1 0x20 0 ∷ new_entry 1 0x30 0 ∷ new_entry 2 0x20 0 ∷ [];
  disabled = [];
  have_step = false;
  current_pid = 0;
  allocs = 0;
  freed = [];
}

session-IsDistinct : IsDistinct (keys session.entries)
session-IsDistinct = (
  (inr (λ e. absurd (omega (arith, e))), (inl (λ e. absurd (omega (arith, e))), tt)),
  ((inl (λ e. absurd (omega (arith, e))), tt), (tt, tt)),
)

-- "3:40:E:0:0:R0"
abbrev new_text : List ℕ
new_text = 51 ∷ 58 ∷ 52 ∷ 48 ∷ 58 ∷ 69 ∷ 58 ∷ 48 ∷ 58 ∷ 48 ∷ 58 ∷ 82 ∷ 48 ∷ []

abbrev reply_of : Option (Reply × Session) → Option Reply
reply_of none = none
reply_of (some (r, st)) = some r

new-run : reply_of (qtdp (λ n. true) new_text session) ≡ some reply_ok
unfolding qtdp num_addr list_find list_add fields add_actions turns turn save alloc src_add change
    text_before place disable_find hex2ulongest hex2ulongest_from hex2int
new-run = refl

qtdp-IsDistinct_example : DistinctAfter (λ n. true) (qtdp (λ n. true) new_text session)
qtdp-IsDistinct_example = qtdp-IsDistinct (λ n. true) new_text session session-IsDistinct

qtdp-Ends_example : qtdp (λ n. true) new_text session ≢ none
qtdp-Ends_example = qtdp-Ends (λ n. true) new_text session

-- "3:40:E:0:0:Q" is not supported, and stays.
abbrev refused_text : List ℕ
refused_text = 51 ∷ 58 ∷ 52 ∷ 48 ∷ 58 ∷ 69 ∷ 58 ∷ 48 ∷ 58 ∷ 48 ∷ 58 ∷ 81 ∷ []

abbrev half_made : Session
half_made = record session { entries = new_entry 3 0x40 0 ∷ session.entries; allocs = 1 }

qtdp-refuses_again_example :
    qtdp (λ n. true) refused_text half_made ≡ some (reply_invalid, half_made)
unfolding qtdp num_addr list_find list_add fields add_actions turns turn alloc disable_find
    hex2ulongest hex2ulongest_from hex2int
qtdp-refuses_again_example =
    qtdp-refuses_again (λ n. true) 51 (58 ∷ 52 ∷ 48 ∷ 58 ∷ 69 ∷ 58 ∷ 48 ∷ 58 ∷ 48 ∷ 58 ∷ 81 ∷ []) 3
      0x40 (69 ∷ 58 ∷ 48 ∷ 58 ∷ 48 ∷ 58 ∷ 81 ∷ []) session refl refl refl refl refl (λ n. true)
      reply_unsupported half_made refl

find_num-only_example : find_num 2 session.entries ≡ only (places 2 0 session.entries)
find_num-only_example = find_num-only 2 session.entries

find_num-run : find_num 1 session.entries ≡ none
unfolding find_num find_num_from
find_num-run = refl

-- "2,22" is one byte short.
turn-frees_twice_example :
    turn (λ n. true) 0 true false 88 (digits (2 ∷ []) ++ (44 ∷ text (0x22 ∷ []))) session
    ≡ out reply_invalid (record session { allocs = 2; freed = 0 ∷ 1 ∷ 1 ∷ [] })
turn-frees_twice_example =
    turn-frees_twice (λ n. true) 0 true false 2 [] (0x22 ∷ []) session refl refl (omega arith, tt)
      (omega arith) (omega arith) (omega arith, tt)
