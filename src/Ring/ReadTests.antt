-- ===== src/Ring/ReadTests.antt =====
-- Entries and frames in a page, and the theorems of the reader at them.
use kgtp.Base.{ℕ, ◌≡◌, ◌≢◌, refl, arith, Option, none, some, [], ◌∷◌}
use kgtp.Ring.Bytes.{load, store}
use kgtp.Ring.Pages.{Rb}
use kgtp.Ring.Walk.{at_end, rb_walk, walk_loop, walk_round, after_round, at_entry, pass_entry_at}
use kgtp.Ring.Trail.{variable, there, entry, writer, rb_walk-reaches}
use kgtp.Ring.Read.{
  ReadResult, frame, read_args, begin_read, find_frame, note_frame, scan, scan_one, compare_id,
  cons_scan, choose, choose_or_fail, take_frame, rb_read,
}
use kgtp.Ring.Oldest.{TakesOldest, rb_read-TakesOldest}

-- A processor whose page holds the head of a frame.
abbrev processor : ℕ → Rb
processor id = record {
  mem = store 8 (store 4 (λ x. 0) 12296 0) 12300 id;
  prev_frame = 0;
  w = 12324;
  prev_w = 12296;
  r = 12296;
  rp = 0;
  rp_id = 0;
  discarded = 0;
}

-- A value at the start of the page, up to `w`.
abbrev values : Rb
values = record (processor 7) { mem = store 4 (λ x. 0) 12296 3; w = 12316 }

rb_walk-reaches_example : rb_walk 168 values.mem (read_args values) 2 12296 ≡ some (at_end, 12316)
unfolding load store
rb_walk-reaches_example =
    rb_walk-reaches 168 values.mem (read_args values) refl refl refl refl refl 12296 16376 12316 1
      at_end (writer refl)
      (entry (λ e. absurd (omega (arith, e))) (omega arith) (omega arith) (variable refl) there)

found : (id : ℕ) → find_frame 168 3 (begin_read (processor id)) ≢ none
unfolding find_frame note_frame rb_walk walk_loop walk_round after_round at_entry pass_entry_at load
    store
found id e = cc

rb_read-TakesOldest_example : TakesOldest (rb_read 168 3 (processor 9 ∷ processor 4 ∷ []))
rb_read-TakesOldest_example =
    rb_read-TakesOldest 168 3 (processor 9 ∷ processor 4 ∷ [])
      (λ ne. absurd (ne refl), found 9, (λ ne. absurd (ne refl), found 4, tt))

taken : Option ReadResult → Option (ℕ × ℕ)
taken (some (frame i id tpe rbs)) = some (i, id)
taken _ = none

second_is_older : taken (rb_read 168 3 (processor 9 ∷ processor 4 ∷ [])) ≡ some (1, 4)
unfolding taken rb_read choose_or_fail choose take_frame scan scan_one compare_id cons_scan
    find_frame note_frame rb_walk walk_loop walk_round after_round at_entry pass_entry_at load store
second_is_older = refl
