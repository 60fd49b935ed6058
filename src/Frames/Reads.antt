-- ===== src/Frames/Reads.antt =====
-- gtp.c, `gtp_rb_read` again and again: what a number of reads leads to.
use kgtp.Base.{
  ℕ, zero, suc, ◌+◌, ◌-◌, ◌^◌, ◌≡◌, refl, sym, ap, ◌∙◌, Bool, true, Option, none, some, List, [],
  ◌∷◌, ◌==◌, if-elim, get_elem?, set,
}
use kgtp.Ring.Pages.{Rb}
use kgtp.Ring.Walk.{Reason, at_new_entry, rb_walk}
use kgtp.Ring.Read.{
  ReadResult, no_frame, frame, Scan, begin_read, note_frame, read_args, find_frame, compare_id,
  cons_scan, scan_one, scan, read_reset, take_frame, choose, choose_or_fail, rb_read,
}

abbrev rewound : Rb → Rb
rewound rb = record rb { rp = rb.r; rp_id = 0 }

-- Only the places of the reader are changed.
abbrev pub SamePages : List Rb → List Rb → Type 0
SamePages rbs rbs' = read_reset rbs' ≡ read_reset rbs

abbrev ScanOk : List Rb → Option (List Rb × Scan) → Type 0
ScanOk rbs none = Unit
ScanOk rbs (some (rbs', s)) = SamePages rbs rbs'

abbrev FoundSame : Rb → Option (Bool × Rb) → Type 0
FoundSame rb none = Unit
FoundSame rb (some (found, rb')) = rewound rb' ≡ rewound rb

begin_read-rewound : (rb : Rb) → rewound (begin_read rb) ≡ rewound rb
begin_read-rewound rb =
    if-elim (λ (x : Rb). rewound x ≡ rewound rb) (rb.rp == 0) (record rb { rp = rb.r }) rb
      (λ e. refl) (λ e. refl)

note_frame-FoundSame : (rb : Rb) (o : Option (Reason × ℕ)) → FoundSame rb (note_frame rb o)
unfolding note_frame
note_frame-FoundSame rb none = tt
note_frame-FoundSame rb (some (at_new_entry, a)) = refl
note_frame-FoundSame rb (some (_, a)) = refl

read_reset-cons :
    (rb rb' : Rb) (rbs rbs' : List Rb)
    → rewound rb' ≡ rewound rb
    → SamePages rbs rbs'
    → SamePages (rb ∷ rbs) (rb' ∷ rbs')
unfolding read_reset
read_reset-cons rb rb' rbs rbs' e f = cc

read_reset-set :
    (rbs : List Rb) (i : ℕ) (rb rb' : Rb)
    → get_elem? rbs i ≡ some rb
    → rewound rb' ≡ rewound rb
    → SamePages rbs (set rbs i rb')
unfolding read_reset
read_reset-set [] i rb rb' e f = refl
read_reset-set (x ∷ rbs) zero rb rb' e f =
    let same : x ≡ rb = cc in read_reset-cons x rb' rbs rbs (f ∙ ap rewound (sym same)) refl
read_reset-set (x ∷ rbs) (suc i) rb rb' e f =
    read_reset-cons x x rbs (set rbs i rb') refl (read_reset-set rbs i rb rb' e f)

pub read_reset-twice : (rbs : List Rb) → read_reset (read_reset rbs) ≡ read_reset rbs
unfolding read_reset
read_reset-twice [] = refl
read_reset-twice (rb ∷ rbs) = ap (λ l. rewound rb ∷ l) (read_reset-twice rbs)

module _ (regs_size fuel : ℕ) where
  find_frame-FoundSame : (rb : Rb) → FoundSame rb (find_frame regs_size fuel rb)
  unfolding find_frame
  find_frame-FoundSame rb =
      let walked = rb_walk regs_size rb.mem (read_args rb) fuel rb.rp in
      if-elim (FoundSame rb) (rb.rp_id == 0) (note_frame rb walked) (some (true, rb))
        (λ e. note_frame-FoundSame rb walked) (λ e. refl)

  cons_scan-ScanOk :
      (rb rb' : Rb) (rbs : List Rb) (o : Option (List Rb × Scan))
      → rewound rb' ≡ rewound rb
      → ScanOk rbs o
      → ScanOk (rb ∷ rbs) (cons_scan regs_size fuel rb' o)
  unfolding cons_scan
  cons_scan-ScanOk rb rb' rbs none e ok = tt
  cons_scan-ScanOk rb rb' rbs (some (rbs', s)) e ok = read_reset-cons rb rb' rbs rbs' e ok

  scan_one-ScanOk :
      (again : Scan → Option (List Rb × Scan)) (i : ℕ) (s : Scan) (rb rb₀ : Rb) (rbs : List Rb)
      (o : Option (Bool × Rb))
      → rewound rb₀ ≡ rewound rb
      → FoundSame rb₀ o
      → ((t : Scan) → ScanOk rbs (again t))
      → ScanOk (rb ∷ rbs) (scan_one regs_size fuel again i s o)
  unfolding scan_one
  scan_one-ScanOk again i s rb rb₀ rbs none e same rest = tt
  scan_one-ScanOk again i s rb rb₀ rbs (some (found, rb')) e same rest =
      let t = compare_id regs_size fuel i (found, rb') s in
      cons_scan-ScanOk rb rb' rbs (again t) (same ∙ e) (rest t)

  scan-ScanOk : (rbs : List Rb) (i : ℕ) (s : Scan) → ScanOk rbs (scan regs_size fuel rbs i s)
  unfolding scan
  scan-ScanOk [] i s = refl
  scan-ScanOk (rb ∷ rbs) i s =
      scan_one-ScanOk (scan regs_size fuel rbs (i + 1)) i s rb (begin_read rb) rbs
        (find_frame regs_size fuel (begin_read rb)) (begin_read-rewound rb)
        (find_frame-FoundSame (begin_read rb)) (λ t. scan-ScanOk rbs (i + 1) t)

  -- Without a frame, the reader is back at the start.
  abbrev pub ReadOk : List Rb → Option ReadResult → Type 0
  ReadOk rbs none = Unit
  ReadOk rbs (some (no_frame rbs')) = rbs' ≡ read_reset rbs
  ReadOk rbs (some (frame i id tpe rbs')) = SamePages rbs rbs'

  take_frame-ReadOk :
      (rbs : List Rb) (i : ℕ) (o : Option Rb)
      → get_elem? rbs i ≡ o
      → ReadOk rbs (some (take_frame rbs i o))
  unfolding take_frame
  take_frame-ReadOk rbs i none e = refl
  take_frame-ReadOk rbs i (some rb) e = read_reset-set rbs i rb _ e refl

  SamePages-ReadOk :
      (rbs rbs' : List Rb) (r : ReadResult)
      → SamePages rbs rbs'
      → ReadOk rbs' (some r)
      → ReadOk rbs (some r)
  SamePages-ReadOk rbs rbs' (no_frame rbs'') same ok = ok ∙ same
  SamePages-ReadOk rbs rbs' (frame i id tpe rbs'') same ok = ok ∙ same

  choose-ReadOk : (rbs : List Rb) (c : Option ℕ) → ReadOk rbs (some (choose rbs c))
  unfolding choose
  choose-ReadOk rbs none = refl
  choose-ReadOk rbs (some i) = take_frame-ReadOk rbs i (get_elem? rbs i) refl

  choose_or_fail-ReadOk :
      (rbs : List Rb) (o : Option (List Rb × Scan)) → ScanOk rbs o → ReadOk rbs (choose_or_fail o)
  unfolding choose_or_fail
  choose_or_fail-ReadOk rbs none ok = tt
  choose_or_fail-ReadOk rbs (some (rbs', s)) ok =
      SamePages-ReadOk rbs rbs' (choose rbs' s.current) ok (choose-ReadOk rbs' s.current)

  pub rb_read-ReadOk : (rbs : List Rb) → ReadOk rbs (rb_read regs_size fuel rbs)
  unfolding rb_read
  rb_read-ReadOk rbs =
      let s : Scan = record { min_id = 2 ^ 64 - 1; current = none } in
      choose_or_fail-ReadOk rbs (scan regs_size fuel rbs 0 s) (scan-ScanOk rbs 0 s)
