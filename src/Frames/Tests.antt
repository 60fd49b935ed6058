-- ===== src/Frames/Tests.antt =====
-- Trace frames of two processors, and the searches among them.
use kgtp.Base.{ℕ, ◌≡◌, refl, arith, true, false, none, some, List, [], ◌∷◌}
use kgtp.Ring.Bytes.{load, store}
use kgtp.Ring.Pages.{Rb}
use kgtp.Ring.Walk.{rb_walk, walk_loop, walk_round, after_round, at_entry, pass_entry_at}
use kgtp.Ring.Read.{
  find_frame, note_frame, scan, scan_one, compare_id, cons_scan, choose, choose_or_fail, take_frame,
  rb_read, read_reset,
}
use kgtp.Hex.{hex2ulongest, hex2ulongest_from, hex2int}
use kgtp.Frames.{Reading, noted, read, seek_num, head_find_num, seek_trace, head_find_trace}
use kgtp.Frames.Order.{AtStart, ReadSince, head_find_num-finds}
use kgtp.Frames.Qtframe.{answer_none, ask, set_back, frame_out, search_for, qtframe}
use kgtp.Frames.Place.{KeepsPlace, qtframe-KeepsPlace}

-- A processor whose page holds the head of a frame of the tracepoint 64.
abbrev processor : ℕ → ℕ → Rb
processor id rp = record {
  mem = store 8 (store 8 (store 4 (λ x. 0) 12296 0) 12300 id) 12308 64;
  prev_frame = 0;
  w = 12324;
  prev_w = 12296;
  r = 12296;
  rp = rp;
  rp_id = 0;
  discarded = 0;
}

abbrev noted_processor : ℕ → Rb
noted_processor id = record (processor id 12296) { rp_id = id }

abbrev base : List Rb
base = processor 9 0 ∷ processor 4 0 ∷ []

abbrev start : Reading
start = record {
  rbs = processor 9 12296 ∷ processor 4 12296 ∷ [];
  num = none;
  current = none;
  id = 0;
  tpe = 0;
}

-- The older frame, of the second processor
abbrev first : Reading
first = record {
  rbs = noted_processor 9 ∷ processor 4 12324 ∷ [];
  num = some 0;
  current = some 1;
  id = 4;
  tpe = 64;
}

abbrev second : Reading
second = record {
  rbs = processor 9 12324 ∷ processor 4 12324 ∷ [];
  num = some 1;
  current = some 0;
  id = 9;
  tpe = 64;
}

read-first : read 168 3 start ≡ some (true, first)
unfolding read noted rb_read choose_or_fail choose take_frame scan scan_one compare_id cons_scan
    find_frame note_frame rb_walk walk_loop walk_round after_round at_entry pass_entry_at load store
read-first = refl

read-second : read 168 3 first ≡ some (true, second)
unfolding read noted rb_read choose_or_fail choose take_frame scan scan_one compare_id cons_scan
    find_frame note_frame rb_walk walk_loop walk_round after_round at_entry pass_entry_at load store
read-second = refl

start-AtStart : AtStart (read_reset base) start
unfolding read_reset
start-AtStart = record { here = refl; no_num = refl; no_current = refl }

first-ReadSince : ReadSince 168 3 (read_reset base) 1 first
first-ReadSince = (start, start-AtStart, (first, read-first, refl))

second-ReadSince : ReadSince 168 3 (read_reset base) 2 second
second-ReadSince = (start, start-AtStart, (first, read-first, (second, read-second, refl)))

-- Back from the second frame to the first
head_find_num-finds_example : head_find_num 168 3 2 0 second ≡ some (true, first)
head_find_num-finds_example =
    head_find_num-finds 168 3 base 2 0 2 second first second-ReadSince first-ReadSince (omega arith)

-- `QTFrame:tdp:41` for a tracepoint that has no frame
abbrev command : List ℕ
command = 116 ∷ 100 ∷ 112 ∷ 58 ∷ 52 ∷ 49 ∷ []

qtframe-KeepsPlace_example : KeepsPlace first (qtframe 168 3 128 3 false false true command first)
qtframe-KeepsPlace_example =
    qtframe-KeepsPlace 168 3 128 3 base 0 first first-ReadSince (omega arith) false false true
      command

replies_none : qtframe 168 3 128 4 false false true command first ≡ some (answer_none, first)
unfolding qtframe search_for frame_out set_back ask head_find_trace seek_trace head_find_num
    seek_num read noted rb_read choose_or_fail choose take_frame scan scan_one compare_id cons_scan
    find_frame note_frame rb_walk walk_loop walk_round after_round at_entry pass_entry_at load store
    read_reset hex2ulongest hex2ulongest_from hex2int
replies_none = refl
