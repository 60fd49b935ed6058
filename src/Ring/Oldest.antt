-- ===== src/Ring/Oldest.antt =====
-- gtp_rb.c, `gtp_rb_read`: which frame it takes.
use kgtp.Base.{
  ℕ, zero, suc, ◌+◌, ◌-◌, ◌^◌, ◌≤◌, ◌≡◌, ◌≢◌, refl, sym, ap, ◌∙◌, ◌⊎◌, inl, inr, arith, Bool, true,
  false, Option, none, some, List, [], ◌∷◌, ltb, ◌==◌, if-elim, Bool-cases, get_elem?, set,
  get_elem?-set_ne, get_elem?-set_self, lt-length_of_get,
}
use kgtp.Ring.Bytes.{load}
use kgtp.Ring.Pages.{Rb}
use kgtp.Ring.Walk.{Reason, at_new_entry, rb_walk}
use kgtp.Ring.Read.{
  Scan, ReadResult, no_frame, frame, begin_read, note_frame, find_frame, compare_id, cons_scan,
  scan_one, scan, take_frame, choose, choose_or_fail, rb_read, read_args,
}

some_injective : {a b : Rb} → some a ≡ some b → a ≡ b
some_injective e = cc

-- A noted id is the one of the head at `rp`.
abbrev pub IsNoted : Rb → Type 0
IsNoted rb = rb.rp_id ≢ 0 → (rb.rp ≢ 0) × (rb.rp_id ≡ load 8 rb.mem (rb.rp + 4))

begin_read-IsNoted : (rb : Rb) → IsNoted rb → IsNoted (begin_read rb)
begin_read-IsNoted rb h =
    if-elim IsNoted (rb.rp == 0) (record rb { rp = rb.r }) rb
      (λ e some_id. absurd ((h some_id).0 (ground arith))) (λ e. h)

-- A frame that has been found is at `rp`; where none has been found, none is noted.
abbrev FoundOk : Option (Bool × Rb) → Type 0
FoundOk none = Unit
FoundOk (some (true, rb)) = rb.rp_id ≡ load 8 rb.mem (rb.rp + 4)
FoundOk (some (false, rb)) = rb.rp_id ≡ 0

note_frame-FoundOk : (rb : Rb) (o : Option (Reason × ℕ)) → rb.rp_id ≡ 0 → FoundOk (note_frame rb o)
unfolding note_frame
note_frame-FoundOk rb none zero_id = tt
note_frame-FoundOk rb (some (at_new_entry, a)) zero_id = refl
note_frame-FoundOk rb (some (_, a)) zero_id = zero_id

-- From the processor `i` and the state `s`, over the processors `rbs`, to the state `t`.
record Least (i : ℕ) (s : Scan) (rbs : List Rb) (t : Scan) : Type 0 where
  lower : t.min_id ≤ s.min_id
  least : (j : ℕ) (rb : Rb) → get_elem? rbs j ≡ some rb → rb.rp_id ≢ 0 → t.min_id ≤ rb.rp_id
  source :
      ((t.current ≡ s.current) × (t.min_id ≡ s.min_id))
      ⊎ ((j : ℕ) × (rb : Rb) × (t.current ≡ some (i + j))
          × (get_elem? rbs j ≡ some rb)
          × (rb.rp_id ≡ t.min_id)
          × (rb.rp_id ≡ load 8 rb.mem (rb.rp + 4)))

abbrev LeastOf : ℕ → Scan → Option (List Rb × Scan) → Type 0
LeastOf i s none = ⊥
LeastOf i s (some (rbs, t)) = Least i s rbs t

module _ (regs_size fuel : ℕ) where
  find_frame-FoundOk : (rb : Rb) → IsNoted rb → FoundOk (find_frame regs_size fuel rb)
  unfolding find_frame
  find_frame-FoundOk rb h =
      let walked = rb_walk regs_size rb.mem (read_args rb) fuel rb.rp in
      if-elim FoundOk (rb.rp_id == 0) (note_frame rb walked) (some (true, rb))
        (λ e. note_frame-FoundOk rb walked (ground arith)) (λ e. (h (ground arith)).1)

  -- One processor more, which leads from `s` to `s₁`.
  cons-Least :
      (i : ℕ) (s s₁ t : Scan) (rb : Rb) (rbs : List Rb)
      → s₁.min_id ≤ s.min_id
      → (rb.rp_id ≢ 0 → s₁.min_id ≤ rb.rp_id)
      → ((s₁.current ≡ s.current) × (s₁.min_id ≡ s.min_id))
        ⊎ ((s₁.current ≡ some i) × (rb.rp_id ≡ s₁.min_id) × (rb.rp_id ≡ load 8 rb.mem (rb.rp + 4)))
      → Least (i + 1) s₁ rbs t
      → Least i s (rb ∷ rbs) t
  cons-Least i s s₁ t rb rbs low head_low head_source l = record {
    lower = omega (arith, l.lower, low);
    least = least;
    source = elim l.source [
      | inl (same, min) ↦ elim head_source [
        | inl (same₁, min₁) ↦ inl (same ∙ same₁, min ∙ min₁)
        | inr (here, id, noted) ↦
            inr (0, rb, same ∙ here ∙ ap some (omega arith), refl, id ∙ sym min, noted)
      ]
      | inr (j, x, here, got, id, noted) ↦
          inr (suc j, x, here ∙ ap some (omega arith), got, id, noted)
    ];
  }
    where
      least : (j : ℕ) (x : Rb) → get_elem? (rb ∷ rbs) j ≡ some x → x.rp_id ≢ 0 → t.min_id ≤ x.rp_id
      least zero x e ne =
          let same : rb ≡ x = cc in
          let id : rb.rp_id ≡ x.rp_id = ap (λ (y : Rb). y.rp_id) same in
          omega (arith, l.lower, head_low (λ z. ne (sym id ∙ z)), id)
      least (suc j) x e ne = l.least j x e ne

  found-Least :
      (i : ℕ) (s t : Scan) (found : Bool) (rb : Rb) (rbs : List Rb)
      → FoundOk (some (found, rb))
      → Least (i + 1) (compare_id regs_size fuel i (found, rb) s) rbs t
      → Least i s (rb ∷ rbs) t
  unfolding compare_id
  found-Least i s t false rb rbs zero_id l =
      cons-Least i s s t rb rbs (omega arith) (λ ne. absurd (ne zero_id)) (inl (refl, refl)) l
  found-Least i s t true rb rbs noted l = elim (Bool-cases (ltb rb.rp_id s.min_id)) [
    | inl e ↦
        let s₁ : Scan = record { min_id = rb.rp_id; current = some i } in
        cons-Least i s s₁ t rb rbs (ground arith) (λ ne. omega arith) (inr (refl, refl, noted))
          (rw e at l)
    | inr e ↦
        cons-Least i s s t rb rbs (omega arith) (λ ne. ground arith) (inl (refl, refl)) (rw e at l)
  ]

  -- Nothing is noted wrongly, and every walk has enough fuel.
  abbrev pub Ready : List Rb → Type 0
  Ready [] = Unit
  Ready (rb ∷ rbs) = IsNoted rb × (find_frame regs_size fuel (begin_read rb) ≢ none) × Ready rbs

  cons_scan-LeastOf :
      (i : ℕ) (s : Scan) (found : Bool) (rb : Rb) (o : Option (List Rb × Scan))
      → FoundOk (some (found, rb))
      → LeastOf (i + 1) (compare_id regs_size fuel i (found, rb) s) o
      → LeastOf i s (cons_scan regs_size fuel rb o)
  unfolding cons_scan
  cons_scan-LeastOf i s found rb none ok l = l
  cons_scan-LeastOf i s found rb (some (rbs, t)) ok l = found-Least i s t found rb rbs ok l

  scan_one-LeastOf :
      (i : ℕ) (s : Scan) (o : Option (Bool × Rb)) (again : Scan → Option (List Rb × Scan))
      → o ≢ none
      → FoundOk o
      → ((s' : Scan) → LeastOf (i + 1) s' (again s'))
      → LeastOf i s (scan_one regs_size fuel again i s o)
  unfolding scan_one
  scan_one-LeastOf i s none again ne ok rest = absurd (ne refl)
  scan_one-LeastOf i s (some (found, rb)) again ne ok rest =
      let s₁ = compare_id regs_size fuel i (found, rb) s in
      cons_scan-LeastOf i s found rb (again s₁) ok (rest s₁)

  scan-LeastOf :
      (rbs : List Rb) (i : ℕ) (s : Scan) → Ready rbs → LeastOf i s (scan regs_size fuel rbs i s)
  unfolding scan
  scan-LeastOf [] i s ready = record {
    lower = omega arith;
    least = λ j rb e. cc;
    source = inl (refl, refl);
  }
  scan-LeastOf (rb ∷ rbs) i s (noted, enough, ready) =
      scan_one-LeastOf i s (find_frame regs_size fuel (begin_read rb))
        (scan regs_size fuel rbs (i + 1)) enough
        (find_frame-FoundOk (begin_read rb) (begin_read-IsNoted rb noted))
        (λ s'. scan-LeastOf rbs (i + 1) s' ready)

-- The frame that is taken has the least id: no frame that is noted on any processor is older.
abbrev pub TakesOldest : Option ReadResult → Type 0
TakesOldest none = ⊥
TakesOldest (some (no_frame rbs)) = Unit
TakesOldest (some (frame i id tpe rbs)) =
    (j : ℕ) (rb : Rb) → get_elem? rbs j ≡ some rb → rb.rp_id ≢ 0 → id ≤ rb.rp_id

taken-TakesOldest :
    (rbs : List Rb) (i : ℕ) (rb : Rb) (min : ℕ)
    → get_elem? rbs i ≡ some rb
    → rb.rp_id ≡ min
    → rb.rp_id ≡ load 8 rb.mem (rb.rp + 4)
    → ((j : ℕ) (x : Rb) → get_elem? rbs j ≡ some x → x.rp_id ≢ 0 → min ≤ x.rp_id)
    → TakesOldest (some (take_frame rbs i (some rb)))
unfolding take_frame
taken-TakesOldest rbs i rb min got id noted least j x e ne =
    let next : Rb = record rb { rp = rb.rp + 28; rp_id = 0 } in
    let where_j : (i ≡ j) ⊎ (i ≢ j) = omega arith in
    elim where_j [
      | inl same ↦
          let here : get_elem? (set rbs i next) i ≡ some next =
            get_elem?-set_self rbs i next (lt-length_of_get rbs i got) in
          let same_rb : next ≡ x =
            some_injective (sym here ∙ ap (get_elem? (set rbs i next)) same ∙ e) in
          absurd (ne (ap (λ (y : Rb). y.rp_id) (sym same_rb)))
      | inr far ↦
          omega (arith, id, noted, least j x (sym (get_elem?-set_ne rbs i j next far) ∙ e) ne)
    ]

choose-TakesOldest :
    (rbs : List Rb) (t : Scan)
    → Least 0 (record { min_id = 2 ^ 64 - 1; current = none }) rbs t
    → TakesOldest (some (choose rbs t.current))
unfolding choose
choose-TakesOldest rbs t l = elim l.source [
  | inl (same, min) ↦ rw same tt
  | inr (j, rb, here, got, id, noted) ↦
      let at_j : t.current ≡ some j = here ∙ ap some (omega arith) in
      rw (at_j, got) (taken-TakesOldest rbs j rb t.min_id got id noted l.least)
]

scanned-TakesOldest :
    (o : Option (List Rb × Scan))
    → LeastOf 0 (record { min_id = 2 ^ 64 - 1; current = none }) o
    → TakesOldest (choose_or_fail o)
unfolding choose_or_fail
scanned-TakesOldest none l = l
scanned-TakesOldest (some (rbs, t)) l = choose-TakesOldest rbs t l

-- `gtp_rb_read`, where each id that is noted is that of the head at `rp`, and each walk ends within
-- the fuel: it comes to a result, and the id of a frame that it takes is at most that of every
-- frame that is noted afterwards on any processor.
pub rb_read-TakesOldest :
    (regs_size fuel : ℕ) (rbs : List Rb)
    → Ready regs_size fuel rbs
    → TakesOldest (rb_read regs_size fuel rbs)
unfolding rb_read
rb_read-TakesOldest regs_size fuel rbs ready =
    let s₀ : Scan = record { min_id = 2 ^ 64 - 1; current = none } in
    scanned-TakesOldest (scan regs_size fuel rbs 0 s₀) (scan-LeastOf regs_size fuel rbs 0 s₀ ready)
