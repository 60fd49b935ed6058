-- ===== src/Frames/Place.antt =====
-- gtp.c, `gtp_gdbrsp_qtframe` where no frame is found: the place in the trace is kept.
use kgtp.Base.{
  ℕ, zero, suc, ◌+◌, ◌≤◌, ◌≡◌, refl, sym, ◌∙◌, Bool, true, false, Option, none, some, List, ◌==◌,
  if-elim,
}
use kgtp.Ring.Pages.{Rb}
use kgtp.Ring.Read.{read_reset}
use mathlib.Core.Path.{subst}
use kgtp.Frames.{
  Reading, reset_reading, read, where_read, not_begun, is_num, is_behind, seek_num, head_find_num,
  seek_trace, head_find_trace, seek_addr, head_find_addr, first_read, unless_wanted,
}
use kgtp.Frames.Reads.{read_reset-twice}
use kgtp.Frames.Order.{
  AtStart, ReadSince, NotedOk, read-NotedOk, reset_reading-AtStart, head_find_num-finds, some_num,
  num-ReadSince,
}
use kgtp.Frames.Qtframe.{
  Query, by_addr, by_trace, by_num, no_more, wrong, Answer, answer_ok, answer_frame, ask, with_none,
  set_back, frame_out, search_for, qtframe,
}

module _ (regs_size walk_fuel : ℕ) (base : List Rb) where
  abbrev Same : Reading → Type 0
  Same st = read_reset st.rbs ≡ base

  -- A search without a result has come to the end, and the reader is at the start.
  abbrev LostOk : Option (Bool × Reading) → Type 0
  LostOk none = Unit
  LostOk (some (false, st)) = AtStart base st
  LostOk (some (true, st)) = Unit

  noted-LostOk :
      (go : Reading → Option (Bool × Reading)) (a : Reading) (o : Option (Bool × Reading))
      → Same a
      → NotedOk regs_size walk_fuel a o
      → ((c : Reading) → Same c → LostOk (go c))
      → LostOk (where_read go o)
  noted-LostOk go a none same ok rest = tt
  noted-LostOk go a (some (false, c)) same ok rest = subst (λ b. AtStart b c) same ok
  noted-LostOk go a (some (true, c)) same ok rest = rest c (ok.0 ∙ same)

  where_read-LostOk :
      (go : Reading → Option (Bool × Reading)) (a : Reading)
      → Same a
      → ((c : Reading) → Same c → LostOk (go c))
      → LostOk (where_read go (read regs_size walk_fuel a))
  where_read-LostOk go a same rest =
      noted-LostOk go a (read regs_size walk_fuel a) same (read-NotedOk regs_size walk_fuel a) rest

  seek_num-LostOk :
      (fuel num : ℕ) (st : Reading) → Same st → LostOk (seek_num regs_size walk_fuel fuel num st)
  unfolding seek_num
  seek_num-LostOk zero num st same = tt
  seek_num-LostOk (suc fuel) num st same =
      if-elim LostOk (is_num num st.num) (some (true, st)) _ (λ e. tt)
        (λ e.
          where_read-LostOk (seek_num regs_size walk_fuel fuel num) st same
            (seek_num-LostOk fuel num))

  head_find_num-LostOk :
      (fuel num : ℕ) (st : Reading)
      → Same st
      → LostOk (head_find_num regs_size walk_fuel fuel num st)
  unfolding head_find_num
  head_find_num-LostOk fuel num st same =
      if-elim (λ x. LostOk (seek_num regs_size walk_fuel fuel num x)) (is_behind num st.num)
        (reset_reading st) st
        (λ e. seek_num-LostOk fuel num (reset_reading st) (read_reset-twice st.rbs ∙ same))
        (λ e. seek_num-LostOk fuel num st same)

  seek_trace-LostOk :
      (fuel trace : ℕ) (st : Reading)
      → Same st
      → LostOk (seek_trace regs_size walk_fuel fuel trace st)
  unfolding seek_trace
  seek_trace-LostOk zero trace st same = tt
  seek_trace-LostOk (suc fuel) trace st same =
      if-elim LostOk (st.tpe == trace) (some (true, st)) _ (λ e. tt)
        (λ e.
          where_read-LostOk (seek_trace regs_size walk_fuel fuel trace) st same
            (seek_trace-LostOk fuel trace))

  first_read-LostOk :
      (go : Reading → Option (Bool × Reading)) (st : Reading)
      → Same st
      → ((c : Reading) → Same c → LostOk (go c))
      → LostOk (first_read regs_size walk_fuel go st)
  first_read-LostOk go st same rest =
      if-elim LostOk (not_begun st.num) (where_read go (read regs_size walk_fuel st)) (go st)
        (λ e. where_read-LostOk go st same rest) (λ e. rest st same)

  head_find_trace-LostOk :
      (fuel trace : ℕ) (st : Reading)
      → Same st
      → LostOk (head_find_trace regs_size walk_fuel fuel trace st)
  unfolding head_find_trace
  head_find_trace-LostOk fuel trace st same =
      first_read-LostOk (seek_trace regs_size walk_fuel fuel trace) st same
        (seek_trace-LostOk fuel trace)

  module _ (pc_at : ℕ) where
    unless_wanted-LostOk :
        (inside : Bool) (lo hi : ℕ) (o : Option Bool) (st : Reading)
        (rest : Option (Bool × Reading))
        → LostOk rest
        → LostOk (unless_wanted regs_size walk_fuel pc_at inside lo hi o st rest)
    unless_wanted-LostOk inside lo hi none st rest ok = tt
    unless_wanted-LostOk inside lo hi (some true) st rest ok = tt
    unless_wanted-LostOk inside lo hi (some false) st rest ok = ok

    seek_addr-LostOk :
        (inside : Bool) (lo hi fuel : ℕ) (st : Reading)
        → Same st
        → LostOk (seek_addr regs_size walk_fuel pc_at inside lo hi fuel st)
    unfolding seek_addr
    seek_addr-LostOk inside lo hi zero st same = tt
    seek_addr-LostOk inside lo hi (suc fuel) st same = unless_wanted-LostOk inside lo hi _ st _ (
        where_read-LostOk (seek_addr regs_size walk_fuel pc_at inside lo hi fuel) st same
          (seek_addr-LostOk inside lo hi fuel))

    head_find_addr-LostOk :
        (inside : Bool) (lo hi fuel : ℕ) (st : Reading)
        → Same st
        → LostOk (head_find_addr regs_size walk_fuel pc_at inside lo hi fuel st)
    unfolding head_find_addr
    head_find_addr-LostOk inside lo hi fuel st same =
        first_read-LostOk (seek_addr regs_size walk_fuel pc_at inside lo hi fuel) st same
          (seek_addr-LostOk inside lo hi fuel)

-- A reply without a frame, and an error, keep the frame that is looked at.
abbrev pub KeepsPlace : Reading → Option (Answer × Reading) → Type 0
KeepsPlace st none = Unit
KeepsPlace st (some (answer_frame num tpe, st')) = Unit
KeepsPlace st (some (answer_ok, st')) = Unit
KeepsPlace st (some (_, st')) = st' ≡ st

module _ (regs_size walk_fuel pc_at fuel : ℕ) (base : List Rb) (n : ℕ) (st : Reading)
    (at : ReadSince regs_size walk_fuel (read_reset base) (suc n) st) (enough : n + 2 ≤ fuel) where
  num : st.num ≡ some n
  num =
      some_num regs_size walk_fuel n st.num
        (num-ReadSince regs_size walk_fuel (read_reset base) (suc n) st at)

  set_back-KeepsPlace :
      (k : ℕ) (lost : Reading)
      → ReadSince regs_size walk_fuel (read_reset base) k lost
      → KeepsPlace st (set_back regs_size walk_fuel pc_at fuel st.num lost)
  unfolding set_back
  set_back-KeepsPlace k lost r =
      let back = head_find_num-finds regs_size walk_fuel base k n fuel lost st r at enough in
      subst (λ o. KeepsPlace st (set_back regs_size walk_fuel pc_at fuel o lost)) (sym num)
        (subst (λ o. KeepsPlace st (with_none o)) (sym back) refl)

  frame_out-KeepsPlace :
      (o : Option (Bool × Reading))
      → LostOk regs_size walk_fuel (read_reset base) o
      → KeepsPlace st (frame_out regs_size walk_fuel pc_at fuel st.num o)
  unfolding frame_out
  frame_out-KeepsPlace none lost = tt
  frame_out-KeepsPlace (some (false, st')) lost = set_back-KeepsPlace 0 st' (st', lost, refl)
  frame_out-KeepsPlace (some (true, st')) lost = tt

  same : read_reset st.rbs ≡ read_reset base
  same =
      let (a, s, r) = at in
      (reset_reading-AtStart regs_size walk_fuel base (suc n) st (a, s, r)).here

  search_for-KeepsPlace :
      (q : Query) → KeepsPlace st (search_for regs_size walk_fuel pc_at fuel q st)
  unfolding search_for
  search_for-KeepsPlace (by_addr inside lo hi) =
      frame_out-KeepsPlace _ (
        head_find_addr-LostOk regs_size walk_fuel (read_reset base) pc_at inside lo hi fuel st same)
  search_for-KeepsPlace (by_trace trace) =
      frame_out-KeepsPlace _
        (head_find_trace-LostOk regs_size walk_fuel (read_reset base) fuel trace st same)
  search_for-KeepsPlace (by_num m) =
      frame_out-KeepsPlace _
        (head_find_num-LostOk regs_size walk_fuel (read_reset base) fuel m st same)
  search_for-KeepsPlace no_more = tt
  search_for-KeepsPlace wrong = refl

  -- Where GDB looks at the frame `n`, which `n + 1` reads since the start lead to, and the loops have
  -- fuel for `n + 2` rounds: a `QTFrame` that replies `F-1` or an error leaves the frame, its number
  -- and the places of all readers as they were.
  pub qtframe-KeepsPlace :
      (started piped created : Bool) (pkg : List ℕ)
      → KeepsPlace st (qtframe regs_size walk_fuel pc_at fuel started piped created pkg st)
  unfolding qtframe
  qtframe-KeepsPlace true piped created pkg = refl
  qtframe-KeepsPlace false true created pkg = refl
  qtframe-KeepsPlace false false false pkg = set_back-KeepsPlace (suc n) st at
  qtframe-KeepsPlace false false true pkg = search_for-KeepsPlace (ask pkg)
