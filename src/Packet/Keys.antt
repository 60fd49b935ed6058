-- ===== src/Packet/Keys.antt =====
-- gtp.c, the numbers and addresses of the tracepoints in `gtp_list`: which commands change them.
use kgtp.Base.{
  ◌%◌, ◌^◌, ℕ, zero, suc, ◌-◌, ◌≡◌, refl, ap, ◌∙◌, inl, inr, arith, Bool, true, not, ◌||◌, Option,
  none, some, List, [], ◌∷◌, ◌==◌, if-elim, length, get_elem?, set, map, Option-cases,
}
use kgtp.Hex.{
  hex2ulongest, Parsed, parsed, bad_text, no_memory, read_bytes, check_size, with_buffer,
  parse_bytes, parse_x,
}
use kgtp.Packet.{
  Entry, Session, Act, Body, collect, regs, expression, Reply, reply_invalid, reply_unsupported,
  alloc, free, release_body, action_release,
}
use kgtp.Packet.Entries.{dup_src, add_src, src_add, change}
use kgtp.Packet.Qtdp.{
  Turn, go_on, out, place, saved, save_for, save, text_before, with_m, with_r, with_x, act_x,
  with_action, turn, after_turn, turns, add_for, add_actions, parse_m,
}

abbrev pub key : Entry → ℕ × ℕ
key e = (e.num, e.addr)

abbrev pub keys : List Entry → List (ℕ × ℕ)
keys es = map key es

keys-set :
    (es : List Entry) (i : ℕ) (e e' : Entry)
    → get_elem? es i ≡ some e
    → key e' ≡ key e
    → keys (set es i e') ≡ keys es
keys-set [] i e e' got same = refl
keys-set (x ∷ es) zero e e' got same = cc
keys-set (x ∷ es) (suc i) e e' got same = ap (λ ks. key x ∷ ks) (keys-set es i e e' got same)

abbrev pub core : Session → List Entry × Bool
core st = (st.entries, st.started)

abbrev pub key_view : List Entry × Bool → List (ℕ × ℕ) × Bool
key_view (es, started) = (keys es, started)

-- The tracepoints are the same, and whether they are started.
abbrev pub SameKeys : Session → Session → Type 0
SameKeys st st' = key_view (core st') ≡ key_view (core st)

change-SameKeys :
    (i : ℕ) (f : Entry → Entry) (st : Session)
    → ((e : Entry) → key (f e) ≡ key e)
    → SameKeys st (change i f st)
unfolding change
change-SameKeys i f st keeps = elim (Option-cases (get_elem? st.entries i)) [
  | inl e ↦ rw e refl
  | inr (x, e) ↦ rw e (ap (λ ks. (ks, st.started)) (keys-set st.entries i x (f x) e (keeps x)))
]

place-key :
    (addnew step_action : Bool) (a : Act) (e : Entry) → key (place addnew step_action a e) ≡ key e
unfolding place
place-key addnew step_action a e = ground arith

pub alloc-entries : (succeeds : ℕ → Bool) (st : Session) → core (alloc succeeds st).1 ≡ core st
unfolding alloc
alloc-entries succeeds st = ground arith

release_body-entries :
    (b : ℕ) (body : Body) (st : Session) → core (release_body b body st) ≡ core st
release_body-entries b (expression bytes buf) st = refl
release_body-entries b (collect regnum offset size) st = refl
release_body-entries b (regs mask) st = refl

release-entries : (a : Act) (st : Session) → core (action_release a st) ≡ core st
unfolding action_release
release-entries a st = release_body-entries a.block a.body st

dup_src-entries :
    (b : ℕ) (text : List ℕ) (list : List (List ℕ)) (r : Option ℕ × Session)
    → core (dup_src b text list r).1 ≡ core r.1
dup_src-entries b text list (none, st) = refl
dup_src-entries b text list (some b', st) = refl

add_src-entries :
    (succeeds : ℕ → Bool) (text : List ℕ) (list : List (List ℕ)) (r : Option ℕ × Session)
    → core (add_src succeeds text list r).1 ≡ core r.1
add_src-entries succeeds text list (none, st) = refl
add_src-entries succeeds text list (some b, st) =
    dup_src-entries b text list (alloc succeeds st) ∙ alloc-entries succeeds st

src_add-entries :
    (succeeds : ℕ → Bool) (text : List ℕ) (list : List (List ℕ)) (st : Session)
    → core (src_add succeeds text list st).1 ≡ core st
unfolding src_add
src_add-entries succeeds text list st =
    add_src-entries succeeds text list (alloc succeeds st) ∙ alloc-entries succeeds st

-- A round of the loop over the actions keeps the tracepoints.
abbrev pub TurnKeeps : Session → Turn → Type 0
TurnKeeps st (go_on rest st') = SameKeys st st'
TurnKeeps st (out r st') = SameKeys st st'

-- And the whole loop
abbrev pub LoopKeeps : Session → Option (Reply × Session) → Type 0
LoopKeeps st none = Unit
LoopKeeps st (some (r, st')) = SameKeys st st'

LoopKeeps-trans :
    (st st' : Session) (o : Option (Reply × Session))
    → SameKeys st st'
    → LoopKeeps st' o
    → LoopKeeps st o
LoopKeeps-trans st st' none same keeps = tt
LoopKeeps-trans st st' (some (r, st'')) same keeps = keeps ∙ same

-- `gtp_parse_x` allocates and frees, no more.
abbrev ParseKeeps : Session → Parsed × List ℕ × Session → Type 0
ParseKeeps st (p, rest, st') = core st' ≡ core st

module _ (succeeds : ℕ → Bool) (st : Session) where
  check_size-ParseKeeps :
      (buf size : ℕ) (r : List ℕ × List ℕ) (st' : Session)
      → core st' ≡ core st
      → ParseKeeps st (check_size (λ size. alloc succeeds) free buf size r st')
  unfolding check_size
  check_size-ParseKeeps buf size (bytes, rest) st' same =
      if-elim (ParseKeeps st) (length bytes == size) (parsed buf bytes, rest, st')
        (bad_text (some buf), rest, free buf st') (λ e. same) (λ e. same)

  with_buffer-ParseKeeps :
      (size : ℕ) (pkg : List ℕ) (r : Option ℕ × Session)
      → core r.1 ≡ core st
      → ParseKeeps st (with_buffer (λ size. alloc succeeds) free size pkg r)
  with_buffer-ParseKeeps size pkg (none, st') same = same
  with_buffer-ParseKeeps size pkg (some buf, st') same =
      check_size-ParseKeeps buf size (read_bytes size pkg) st' same

  parse_bytes-ParseKeeps :
      (r : List ℕ × ℕ) (st' : Session)
      → core st' ≡ core st
      → ParseKeeps st (parse_bytes (λ size. alloc succeeds) free r st')
  unfolding parse_bytes
  parse_bytes-ParseKeeps ([], v) st' same = same
  parse_bytes-ParseKeeps (c ∷ cs, v) st' same =
      let size = v % 2 ^ 32 in
      if-elim (ParseKeeps st) (c == 44)
        (with_buffer (λ size. alloc succeeds) free size cs (alloc succeeds st'))
        (bad_text none, c ∷ cs, st')
        (λ e.
          with_buffer-ParseKeeps size cs (alloc succeeds st') (alloc-entries succeeds st' ∙ same))
        (λ e. same)

  parse_x-ParseKeeps :
      (pkg : List ℕ) (st' : Session)
      → core st' ≡ core st
      → ParseKeeps st (parse_x (λ size. alloc succeeds) free pkg st')
  unfolding parse_x
  parse_x-ParseKeeps [] st' same = same
  parse_x-ParseKeeps (c ∷ cs) st' same = parse_bytes-ParseKeeps (hex2ulongest (c ∷ cs)) st' same

module _ (succeeds : ℕ → Bool) (i : ℕ) (addnew step_action : Bool) where
  saved-TurnKeeps :
      (st : Session) (a : Act) (rest : List ℕ) (r : Option (List (List ℕ)) × Session)
      → core r.1 ≡ core st
      → TurnKeeps st (saved succeeds i addnew step_action a rest r)
  saved-TurnKeeps st a rest (none, st') same = ap key_view (release-entries a st' ∙ same)
  saved-TurnKeeps st a rest (some cmds, st') same =
      change-SameKeys i (λ e. place addnew step_action a (record e { action_cmd = cmds })) st'
        (λ e. place-key addnew step_action a (record e { action_cmd = cmds }))
      ∙ ap key_view same

  save-TurnKeeps :
      (st : Session) (a : Act) (pkg rest : List ℕ) (st' : Session)
      → core st' ≡ core st
      → TurnKeeps st (save succeeds i addnew step_action a pkg rest st')
  unfolding save
  save-TurnKeeps st a pkg rest st' same = for (get_elem? st'.entries i)
    where
      for :
          (o : Option Entry)
          → TurnKeeps st (save_for succeeds i addnew step_action o a pkg rest st')
      for none = ap key_view same
      for (some e) =
          let text = text_before (length pkg - length rest) pkg in
          saved-TurnKeeps st a rest (src_add succeeds text e.action_cmd st')
            (src_add-entries succeeds text e.action_cmd st' ∙ same)

  with_m-TurnKeeps :
      (st : Session) (b : ℕ) (pkg : List ℕ) (r : Option Body × List ℕ) (st' : Session)
      → core st' ≡ core st
      → TurnKeeps st (with_m succeeds i addnew step_action b pkg r st')
  with_m-TurnKeeps st b pkg (none, rest) st' same = ap key_view same
  with_m-TurnKeeps st b pkg (some body, rest) st' same =
      save-TurnKeeps st (record { block = b; body = body }) pkg rest st' same

  with_r-TurnKeeps :
      (st : Session) (b : ℕ) (pkg : List ℕ) (r : List ℕ × ℕ) (st' : Session)
      → core st' ≡ core st
      → TurnKeeps st (with_r succeeds i addnew step_action b pkg r st')
  with_r-TurnKeeps st b pkg (rest, mask) st' same =
      save-TurnKeeps st (record { block = b; body = regs mask }) pkg rest st' same

  with_x-TurnKeeps :
      (st : Session) (b : ℕ) (pkg : List ℕ) (r : Parsed × List ℕ × Session)
      → ParseKeeps st r
      → TurnKeeps st (with_x succeeds i addnew step_action b pkg r)
  with_x-TurnKeeps st b pkg (parsed buf bytes, rest, st') same =
      save-TurnKeeps st (record { block = b; body = expression bytes buf }) pkg rest st' same
  with_x-TurnKeeps st b pkg (bad_text (some buf), rest, st') same =
      ap key_view (release-entries (record { block = b; body = expression [] buf }) st' ∙ same)
  with_x-TurnKeeps st b pkg (bad_text none, rest, st') same = ap key_view same
  with_x-TurnKeeps st b pkg (no_memory, rest, st') same = ap key_view same

  act_x-TurnKeeps :
      (st : Session) (b : ℕ) (pkg rest : List ℕ) (st' : Session)
      → core st' ≡ core st
      → TurnKeeps st (act_x succeeds i addnew step_action b pkg rest st')
  unfolding act_x
  act_x-TurnKeeps st b pkg rest st' same =
      with_x-TurnKeeps st b pkg (parse_x (λ size. alloc succeeds) free rest st')
        (parse_x-ParseKeeps succeeds st rest st' same)

  with_action-TurnKeeps :
      (st : Session) (r : Option ℕ × Session) (k : ℕ → Session → Turn)
      → core r.1 ≡ core st
      → ((b : ℕ) (st' : Session) → core st' ≡ core st → TurnKeeps st (k b st'))
      → TurnKeeps st (with_action succeeds i addnew step_action r k)
  with_action-TurnKeeps st (none, st') k same f = ap key_view same
  with_action-TurnKeeps st (some b, st') k same f = f b st' same

  turn-TurnKeeps :
      (c : ℕ) (rest : List ℕ) (st : Session)
      → TurnKeeps st (turn succeeds i addnew step_action c rest st)
  unfolding turn
  turn-TurnKeeps c rest st =
      let pkg = c ∷ rest in
      let allocated = alloc-entries succeeds st in
      if-elim (TurnKeeps st) (c == 58 || c == 45) (go_on rest st) _ (λ e. refl)
        (λ e.
          if-elim (TurnKeeps st) (c == 77) _ _
            (λ e₁.
              with_action-TurnKeeps st (alloc succeeds st) _ allocated
                (λ b st'. with_m-TurnKeeps st b pkg (parse_m rest) st'))
            (λ e₁.
              if-elim (TurnKeeps st) (c == 82) _ _
                (λ e₂.
                  with_action-TurnKeeps st (alloc succeeds st) _ allocated
                    (λ b st'. with_r-TurnKeeps st b pkg (hex2ulongest rest) st'))
                (λ e₂.
                  if-elim (TurnKeeps st) (c == 88) _ (out reply_unsupported st)
                    (λ e₃.
                      with_action-TurnKeeps st (alloc succeeds st) _ allocated
                        (λ b st'. act_x-TurnKeeps st b pkg rest st'))
                    (λ e₃. refl))))

  after_turn-LoopKeeps :
      (st : Session) (t : Turn) (again : List ℕ → Session → Option (Reply × Session))
      → TurnKeeps st t
      → ((rest : List ℕ) (st' : Session) → LoopKeeps st' (again rest st'))
      → LoopKeeps st (after_turn succeeds i addnew step_action again t)
  after_turn-LoopKeeps st (go_on rest st') again same f =
      LoopKeeps-trans st st' (again rest st') same (f rest st')
  after_turn-LoopKeeps st (out r st') again same f = same

  turns-LoopKeeps :
      (fuel : ℕ) (pkg : List ℕ) (st : Session)
      → LoopKeeps st (turns succeeds i addnew step_action fuel pkg st)
  unfolding turns
  turns-LoopKeeps fuel [] st = refl
  turns-LoopKeeps zero (c ∷ rest) st = tt
  turns-LoopKeeps (suc fuel) (c ∷ rest) st =
      after_turn-LoopKeeps st (turn succeeds i addnew step_action c rest st)
        (turns succeeds i addnew step_action fuel) (turn-TurnKeeps c rest st) (turns-LoopKeeps fuel)

module _ (succeeds : ℕ → Bool) (i : ℕ) (addnew : Bool) where
  add_for-LoopKeeps :
      (o : Option Entry) (pkg : List ℕ) (st : Session)
      → LoopKeeps st (add_for succeeds i addnew o pkg st)
  add_for-LoopKeeps none pkg st = refl
  add_for-LoopKeeps (some e) [] st = refl
  add_for-LoopKeeps (some e) (c ∷ rest) st =
      if-elim (LoopKeeps st) (c == 83) _ _
        (λ s.
          if-elim (LoopKeeps st) (e.step == 0) (some (reply_invalid, st)) _ (λ z. refl)
            (λ z. turns-LoopKeeps succeeds i addnew true (length rest) rest st))
        (λ s.
          turns-LoopKeeps succeeds i addnew (not (length e.step_action_list == 0))
            (suc (length rest)) (c ∷ rest) st)

  -- The loop over the actions of a tracepoint keeps the tracepoints.
  pub add_actions-LoopKeeps :
      (pkg : List ℕ) (st : Session) → LoopKeeps st (add_actions succeeds i addnew pkg st)
  unfolding add_actions
  add_actions-LoopKeeps pkg st = add_for-LoopKeeps (get_elem? st.entries i) pkg st
