-- ===== src/Frames/Order.antt =====
-- gtp.c, the trace frames in the order of `gtp_rb_read`: a search by number finds its frame.
use kgtp.Base.{
  ℕ, zero, suc, ◌+◌, ◌-◌, ◌≤◌, ◌<◌, ◌≡◌, refl, sym, ap, ◌∙◌, arith, Bool, true, false, Option, none,
  some, List, if-elim,
}
use mathlib.Core.Path.{subst}
use kgtp.Ring.Pages.{Rb}
use kgtp.Ring.Read.{ReadResult, no_frame, frame, rb_read, read_reset}
use kgtp.Frames.{
  Reading, reset_reading, next_num, noted, read, is_num, is_behind, seek_num, head_find_num,
}
use kgtp.Frames.Reads.{ReadOk, rb_read-ReadOk, SamePages, read_reset-twice}

-- No frame has been read, and the reader is at `base`.
pub record AtStart (base : List Rb) (st : Reading) : Type 0 where
  pub here : st.rbs ≡ base
  pub no_num : st.num ≡ none
  pub no_current : st.current ≡ none

module _ (regs_size walk_fuel : ℕ) where
  -- `k` frames are read from `a` on, up to `b`.
  abbrev pub Reads : ℕ → Reading → Reading → Type 0
  Reads zero a b = a ≡ b
  Reads (suc k) a b = (c : Reading) × (read regs_size walk_fuel a ≡ some (true, c)) × Reads k c b

  -- The `k` frames up to `st` have been read since the start.
  abbrev pub ReadSince : List Rb → ℕ → Reading → Type 0
  ReadSince base k st = (a : Reading) × AtStart base a × Reads k a st

  abbrev pub NotedOk : Reading → Option (Bool × Reading) → Type 0
  NotedOk a none = Unit
  NotedOk a (some (false, c)) = AtStart (read_reset a.rbs) c
  NotedOk a (some (true, c)) = SamePages a.rbs c.rbs × (c.num ≡ some (next_num a.num))

  noted-NotedOk :
      (a : Reading) (o : Option ReadResult)
      → ReadOk regs_size walk_fuel a.rbs o
      → NotedOk a (noted a o)
  unfolding noted
  noted-NotedOk a none ok = tt
  noted-NotedOk a (some (no_frame rbs)) ok = record { here = ok; no_num = refl; no_current = refl }
  noted-NotedOk a (some (frame i id tpe rbs)) ok = (ok, refl)

  pub read-NotedOk : (a : Reading) → NotedOk a (read regs_size walk_fuel a)
  unfolding read
  read-NotedOk a =
      noted-NotedOk a (rb_read regs_size walk_fuel a.rbs) (rb_read-ReadOk regs_size walk_fuel a.rbs)

  read_one :
      (a c : Reading)
      → read regs_size walk_fuel a ≡ some (true, c)
      → SamePages a.rbs c.rbs × (c.num ≡ some (next_num a.num))
  read_one a c e = subst (NotedOk a) e (read-NotedOk a)

  Reads-SamePages : (k : ℕ) (a b : Reading) → Reads k a b → SamePages a.rbs b.rbs
  Reads-SamePages zero a b e = ap (λ (x : Reading). read_reset x.rbs) (sym e)
  Reads-SamePages (suc k) a b (c, e, r) = Reads-SamePages k c b r ∙ (read_one a c e).0

  Reads-num : (k : ℕ) (a b : Reading) → Reads k a b → next_num b.num ≡ next_num a.num + k
  Reads-num zero a b e = omega (arith, ap (λ (x : Reading). next_num x.num) e)
  Reads-num (suc k) a b (c, e, r) =
      let more : next_num c.num ≡ next_num a.num + 1 = ap next_num (read_one a c e).1 in
      omega (arith, Reads-num k c b r, more)

  noted-num :
      (a a' : Reading) (o : Option ReadResult) (c : Reading)
      → a.num ≡ a'.num
      → noted a o ≡ some (true, c)
      → noted a' o ≡ some (true, c)
  unfolding noted
  noted-num a a' none c same e = absurd cc
  noted-num a a' (some (no_frame rbs)) c same e = absurd cc
  noted-num a a' (some (frame i id tpe rbs)) c same e =
      ap (λ n. noted (record a { num = n }) (some (frame i id tpe rbs))) (sym same) ∙ e

  -- All starts lead to the same frames.
  read-AtStart :
      (base : List Rb) (a a' : Reading)
      → AtStart base a
      → AtStart base a'
      → (c : Reading) → read regs_size walk_fuel a ≡ some (true, c)
      → read regs_size walk_fuel a' ≡ some (true, c)
  unfolding read
  read-AtStart base a a' s s' c e =
      ap (λ rbs. noted a' (rb_read regs_size walk_fuel rbs)) (s'.here ∙ sym s.here)
      ∙ noted-num a a' (rb_read regs_size walk_fuel a.rbs) c (s.no_num ∙ sym s'.no_num) e

  is_num-false : (n : ℕ) (o : Option ℕ) → next_num o < n + 1 → is_num n o ≡ false
  is_num-false n none lt = refl
  is_num-false n (some m) lt = ground arith

  is_num-true : (n : ℕ) (o : Option ℕ) → o ≡ some n → is_num n o ≡ true
  is_num-true n none e = absurd cc
  is_num-true n (some m) e = let same : m ≡ n = cc in ground (arith, same)

  pub found_here :
      (fuel n : ℕ) (a b : Reading)
      → a ≡ b
      → b.num ≡ some n
      → seek_num regs_size walk_fuel (suc fuel) n a ≡ some (true, b)
  unfolding seek_num
  found_here fuel n a b e num =
      let here = is_num-true n a.num (ap (λ (x : Reading). x.num) e ∙ num) in
      rw here (ap (λ (x : Reading). some (true, x)) e)

  -- From `a` on, the loop stops at the frame `b`, which has the number.
  pub seek_num-Reads :
      (k fuel n : ℕ) (a b : Reading)
      → Reads k a b
      → b.num ≡ some n
      → k < fuel
      → seek_num regs_size walk_fuel fuel n a ≡ some (true, b)
  unfolding seek_num
  seek_num-Reads k zero n a b r num lt = absurd (omega arith)
  seek_num-Reads zero (suc fuel) n a b e num lt = found_here fuel n a b e num
  seek_num-Reads (suc k) (suc fuel) n a b (c, e, r) num lt =
      let count = Reads-num (suc k) a b (c, e, r) in
      let there : next_num b.num ≡ n + 1 = ap next_num num in
      let not_here = is_num-false n a.num (omega (arith, count, there)) in
      rw (not_here, e) (seek_num-Reads k fuel n c b r num (omega arith))

  -- What has been read from two starts agrees.
  Reads-AtStart :
      (base : List Rb) (k : ℕ) (a a' b : Reading)
      → AtStart base a
      → AtStart base a'
      → Reads (suc k) a b
      → Reads (suc k) a' b
  Reads-AtStart base k a a' b s s' (c, e, r) = (c, read-AtStart base a a' s s' c e, r)

  -- From the `k`th frame on, `d` reads more lead to the one that `m` reads lead to.
  Reads-rest :
      (k d m : ℕ) (a st b : Reading) → k + d ≡ m → Reads k a st → Reads m a b → Reads d st b
  Reads-rest zero d m a st b sum e r =
      subst (λ (x : Reading). Reads d x b) e (subst (λ x. Reads x a b) (omega (arith, sum)) r)
  Reads-rest (suc k) d zero a st b sum (c, e, r) r' = absurd (omega (arith, sum))
  Reads-rest (suc k) d (suc m) a st b sum (c, e, r) (c', e', r') =
      let same : c' ≡ c = cc in
      Reads-rest k d m c st b (omega (arith, sum)) r (subst (λ (x : Reading). Reads m x b) same r')

  -- The number of a frame that is not the start
  pub num-ReadSince :
      (base : List Rb) (k : ℕ) (st : Reading) → ReadSince base k st → next_num st.num ≡ k
  num-ReadSince base k st (a, s, r) =
      let first : next_num a.num ≡ 0 = ap next_num s.no_num in
      omega (arith, Reads-num k a st r, first)

  pub some_num : (n : ℕ) (o : Option ℕ) → next_num o ≡ suc n → o ≡ some n
  some_num n none e = absurd (omega (arith, e))
  some_num n (some m) e = ap some (omega (arith, e))

  not_behind : (n : ℕ) (o : Option ℕ) → is_behind n o ≡ false → next_num o ≤ suc n
  not_behind n none e = omega arith
  not_behind n (some m) e = ground (arith, e)

  pub reset_reading-AtStart :
      (base : List Rb) (k : ℕ) (st : Reading)
      → ReadSince (read_reset base) k st
      → AtStart (read_reset base) (reset_reading st)
  reset_reading-AtStart base k st (a, s, r) = record {
    here = Reads-SamePages k a st r ∙ ap read_reset s.here ∙ read_reset-twice base;
    no_num = refl;
    no_current = refl;
  }

  -- Where `k` frames have been read since the start, and `n + 1` reads since the start lead to
  -- `target`, `gtp_frame_head_find_num` of `n` finds `target`, with fuel for `n + 2` rounds: the frame
  -- has the same number wherever the search begins.
  pub head_find_num-finds :
      (base : List Rb) (k n fuel : ℕ) (st target : Reading)
      → ReadSince (read_reset base) k st
      → ReadSince (read_reset base) (suc n) target
      → n + 2 ≤ fuel
      → head_find_num regs_size walk_fuel fuel n st ≡ some (true, target)
  unfolding head_find_num
  head_find_num-finds base k n fuel st target (a, s, r) (a', s', r') enough =
      let num =
        some_num n target.num (num-ReadSince (read_reset base) (suc n) target (a', s', r')) in
      let count = num-ReadSince (read_reset base) k st (a, s, r) in
      if-elim (λ x. seek_num regs_size walk_fuel fuel n x ≡ some (true, target))
        (is_behind n st.num) (reset_reading st) st
        (λ e.
          seek_num-Reads (suc n) fuel n (reset_reading st) target
            (Reads-AtStart (read_reset base) n a' (reset_reading st) target s'
              (reset_reading-AtStart base k st (a, s, r)) r')
            num (omega arith))
        (λ e.
          let near = not_behind n st.num e in
          seek_num-Reads (suc n - k) fuel n st target
            (Reads-rest k (suc n - k) (suc n) a st target (omega (arith, near, count)) r
              (Reads-AtStart (read_reset base) n a' a target s' s r'))
            num (omega arith))
