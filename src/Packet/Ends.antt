-- ===== src/Packet/Ends.antt =====
-- gtp.c, the loop of `gtp_gdbrsp_qtdp` over the actions: it ends.
use kgtp.Base.{
  ℕ, zero, suc, ◌+◌, ◌-◌, ◌*◌, ◌%◌, ◌^◌, ◌≤◌, ◌≢◌, arith, Bool, true, false, not, ◌||◌, Option,
  none, some, List, [], ◌∷◌, ◌==◌, if◌then◌else◌, if-elim, length, get_elem?, Option-cases, inl,
  inr,
}
use kgtp.Hex.{
  hex2int, hex2ulongest, hex2ulongest_from, Parsed, parsed, bad_text, no_memory, read_bytes,
  check_size, with_buffer, parse_bytes, parse_x,
}
use kgtp.Packet.{
  free, Entry, Session, Act, Body, regs, expression, Reply, reply_busy, reply_invalid,
  reply_unsupported, alloc,
}
use kgtp.Packet.Entries.{list_find, disable_find, list_add, src_add}
use kgtp.Packet.Qtdp.{
  Turn, go_on, out, saved, save_for, save, text_before, mem_size, mem_offset, mem_reg, parse_m,
  with_m, with_r, with_x, act_x, with_action, turn, after_turn, turns, add_for, add_actions,
  num_addr, fields, after_fields, set_fields, after_add, at_place, with_num_addr, signed, qtdp,
}

hex_from-length : (cs : List ℕ) (v : ℕ) → length (hex2ulongest_from cs v).0 ≤ length cs
unfolding hex2ulongest_from
hex_from-length [] v = omega arith
hex_from-length (c ∷ cs) v = elim (Option-cases (hex2int c)) [
  | inl e ↦ rw e (omega arith)
  | inr (i, e) ↦
      let rest = hex_from-length cs (v * 16 % 2 ^ 64 + i % 16) in rw e (omega (arith, rest))
]

hex-length : (cs : List ℕ) → length (hex2ulongest cs).0 ≤ length cs
unfolding hex2ulongest
hex-length cs = hex_from-length cs 0

read_bytes-length : (n : ℕ) (pkg : List ℕ) → length (read_bytes n pkg).1 ≤ length pkg
unfolding read_bytes
read_bytes-length zero pkg = omega arith
read_bytes-length (suc n) [] = omega arith
read_bytes-length (suc n) (a ∷ []) = omega arith
read_bytes-length (suc n) (a ∷ b ∷ cs) = elim (Option-cases (hex2int a)) [
  | inl e ↦ rw e (omega arith)
  | inr (h, e) ↦ elim (Option-cases (hex2int b)) [
    | inl e' ↦ rw (e, e') (omega arith)
    | inr (l, e') ↦ let rest = read_bytes-length n cs in rw (e, e') (omega (arith, rest))
  ]
]

-- The text that is left is no longer.
abbrev LeavesText : ℕ → Parsed × List ℕ × Session → Type 0
LeavesText n (p, rest, st) = length rest ≤ n

module _ (kmalloc : ℕ → Session → Option ℕ × Session) where
  check_size-LeavesText :
      (buf size n : ℕ) (r : List ℕ × List ℕ) (st : Session)
      → length r.1 ≤ n
      → LeavesText n (check_size kmalloc free buf size r st)
  unfolding check_size
  check_size-LeavesText buf size n (bytes, rest) st short =
      if-elim (LeavesText n) (length bytes == size) (parsed buf bytes, rest, st)
        (bad_text (some buf), rest, free buf st) (λ e. short) (λ e. short)

  with_buffer-LeavesText :
      (size n : ℕ) (pkg : List ℕ) (r : Option ℕ × Session)
      → length pkg ≤ n
      → LeavesText n (with_buffer kmalloc free size pkg r)
  with_buffer-LeavesText size n pkg (none, st) short = short
  with_buffer-LeavesText size n pkg (some buf, st) short =
      check_size-LeavesText buf size n (read_bytes size pkg) st
        (omega (arith, read_bytes-length size pkg, short))

  parse_bytes-LeavesText :
      (n : ℕ) (r : List ℕ × ℕ) (st : Session)
      → length r.0 ≤ n
      → LeavesText n (parse_bytes kmalloc free r st)
  unfolding parse_bytes
  parse_bytes-LeavesText n ([], v) st short = omega arith
  parse_bytes-LeavesText n (c ∷ cs, v) st short =
      let size = v % 2 ^ 32 in
      if-elim (LeavesText n) (c == 44) (with_buffer kmalloc free size cs (kmalloc size st))
        (bad_text none, c ∷ cs, st)
        (λ e. with_buffer-LeavesText size n cs (kmalloc size st) (omega (arith, short)))
        (λ e. short)

  parse_x-LeavesText :
      (pkg : List ℕ) (st : Session) → LeavesText (length pkg) (parse_x kmalloc free pkg st)
  unfolding parse_x
  parse_x-LeavesText [] st = omega arith
  parse_x-LeavesText (c ∷ cs) st =
      parse_bytes-LeavesText (length (c ∷ cs)) (hex2ulongest (c ∷ cs)) st (hex-length (c ∷ cs))

mem_size-length :
    (reg offset n : ℕ) (r : List ℕ × ℕ) → length r.0 ≤ n → length (mem_size reg offset r).1 ≤ n
mem_size-length reg offset n (rest, size) short = short

mem_offset-length : (reg n : ℕ) (r : List ℕ × ℕ) → length r.0 ≤ n → length (mem_offset reg r).1 ≤ n
mem_offset-length reg n ([], v) short = omega arith
mem_offset-length reg n (c ∷ rest, v) short =
    mem_size-length reg v n (hex2ulongest rest) (omega (arith, hex-length rest, short))

mem_reg-length :
    (is_neg : Bool) (n : ℕ) (r : List ℕ × ℕ) → length r.0 ≤ n → length (mem_reg is_neg r).1 ≤ n
mem_reg-length is_neg n ([], v) short = omega arith
mem_reg-length is_neg n (c ∷ rest, v) short =
    mem_offset-length (if is_neg then (2 ^ 32 - v % 2 ^ 32) % 2 ^ 32 else v % 2 ^ 32) n
      (hex2ulongest rest) (omega (arith, hex-length rest, short))

parse_m-length : (pkg : List ℕ) → length (parse_m pkg).1 ≤ length pkg
unfolding parse_m
parse_m-length [] = mem_reg-length false 0 (hex2ulongest []) (hex-length [])
parse_m-length (c ∷ rest) =
    let n = length (c ∷ rest) in
    if-elim (λ (r : Option Body × List ℕ). length r.1 ≤ n) (c == 45)
      (mem_reg true (hex2ulongest rest)) (mem_reg false (hex2ulongest (c ∷ rest)))
      (λ e. mem_reg-length true n (hex2ulongest rest) (omega (arith, hex-length rest)))
      (λ e. mem_reg-length false n (hex2ulongest (c ∷ rest)) (hex-length (c ∷ rest)))

-- A round that goes on leaves at most `n` characters.
abbrev TurnLeaves : ℕ → Turn → Type 0
TurnLeaves n (go_on rest st) = length rest ≤ n
TurnLeaves n (out r st) = Unit

module _ (succeeds : ℕ → Bool) (i : ℕ) (addnew step_action : Bool) where
  saved-TurnLeaves :
      (n : ℕ) (a : Act) (rest : List ℕ) (r : Option (List (List ℕ)) × Session)
      → length rest ≤ n
      → TurnLeaves n (saved succeeds i addnew step_action a rest r)
  saved-TurnLeaves n a rest (none, st) short = tt
  saved-TurnLeaves n a rest (some cmds, st) short = short

  save_for-TurnLeaves :
      (n : ℕ) (o : Option Entry) (a : Act) (pkg rest : List ℕ) (st : Session)
      → length rest ≤ n
      → TurnLeaves n (save_for succeeds i addnew step_action o a pkg rest st)
  save_for-TurnLeaves n none a pkg rest st short = tt
  save_for-TurnLeaves n (some e) a pkg rest st short =
      saved-TurnLeaves n a rest
        (src_add succeeds (text_before (length pkg - length rest) pkg) e.action_cmd st) short

  save-TurnLeaves :
      (n : ℕ) (a : Act) (pkg rest : List ℕ) (st : Session)
      → length rest ≤ n
      → TurnLeaves n (save succeeds i addnew step_action a pkg rest st)
  unfolding save
  save-TurnLeaves n a pkg rest st short =
      save_for-TurnLeaves n (get_elem? st.entries i) a pkg rest st short

  with_m-TurnLeaves :
      (n b : ℕ) (pkg : List ℕ) (r : Option Body × List ℕ) (st : Session)
      → length r.1 ≤ n
      → TurnLeaves n (with_m succeeds i addnew step_action b pkg r st)
  with_m-TurnLeaves n b pkg (none, rest) st short = tt
  with_m-TurnLeaves n b pkg (some body, rest) st short =
      save-TurnLeaves n (record { block = b; body = body }) pkg rest st short

  with_r-TurnLeaves :
      (n b : ℕ) (pkg : List ℕ) (r : List ℕ × ℕ) (st : Session)
      → length r.0 ≤ n
      → TurnLeaves n (with_r succeeds i addnew step_action b pkg r st)
  with_r-TurnLeaves n b pkg (rest, mask) st short =
      save-TurnLeaves n (record { block = b; body = regs mask }) pkg rest st short

  with_x-TurnLeaves :
      (n b : ℕ) (pkg : List ℕ) (r : Parsed × List ℕ × Session)
      → LeavesText n r
      → TurnLeaves n (with_x succeeds i addnew step_action b pkg r)
  with_x-TurnLeaves n b pkg (parsed buf bytes, rest, st) short =
      save-TurnLeaves n (record { block = b; body = expression bytes buf }) pkg rest st short
  with_x-TurnLeaves n b pkg (bad_text none, rest, st) short = tt
  with_x-TurnLeaves n b pkg (bad_text (some buf), rest, st) short = tt
  with_x-TurnLeaves n b pkg (no_memory, rest, st) short = tt

  act_x-TurnLeaves :
      (b : ℕ) (pkg rest : List ℕ) (st : Session)
      → TurnLeaves (length rest) (act_x succeeds i addnew step_action b pkg rest st)
  unfolding act_x
  act_x-TurnLeaves b pkg rest st =
      with_x-TurnLeaves (length rest) b pkg (parse_x (λ size. alloc succeeds) free rest st)
        (parse_x-LeavesText (λ size. alloc succeeds) rest st)

  with_action-TurnLeaves :
      (n : ℕ) (r : Option ℕ × Session) (k : ℕ → Session → Turn)
      → ((b : ℕ) (st : Session) → TurnLeaves n (k b st))
      → TurnLeaves n (with_action succeeds i addnew step_action r k)
  with_action-TurnLeaves n (none, st) k f = tt
  with_action-TurnLeaves n (some b, st) k f = f b st

  turn-TurnLeaves :
      (c : ℕ) (rest : List ℕ) (st : Session)
      → TurnLeaves (length rest) (turn succeeds i addnew step_action c rest st)
  unfolding turn
  turn-TurnLeaves c rest st =
      let pkg = c ∷ rest in
      let n = length rest in
      if-elim (TurnLeaves n) (c == 58 || c == 45) (go_on rest st) _ (λ e. omega arith)
        (λ e.
          if-elim (TurnLeaves n) (c == 77) _ _
            (λ e₁.
              with_action-TurnLeaves n (alloc succeeds st) _
                (λ b st'. with_m-TurnLeaves n b pkg (parse_m rest) st' (parse_m-length rest)))
            (λ e₁.
              if-elim (TurnLeaves n) (c == 82) _ _
                (λ e₂.
                  with_action-TurnLeaves n (alloc succeeds st) _
                    (λ b st'. with_r-TurnLeaves n b pkg (hex2ulongest rest) st' (hex-length rest)))
                (λ e₂.
                  if-elim (TurnLeaves n) (c == 88) _ (out reply_unsupported st)
                    (λ e₃.
                      with_action-TurnLeaves n (alloc succeeds st) _
                        (λ b st'. act_x-TurnLeaves b pkg rest st'))
                    (λ e₃. tt))))

  after_turn-Ends :
      (n : ℕ) (t : Turn) (again : List ℕ → Session → Option (Reply × Session))
      → TurnLeaves n t
      → ((rest : List ℕ) (st : Session) → length rest ≤ n → again rest st ≢ none)
      → after_turn succeeds i addnew step_action again t ≢ none
  after_turn-Ends n (go_on rest st) again short f = f rest st short
  after_turn-Ends n (out r st) again short f = λ e. cc

  turns-Ends :
      (fuel : ℕ) (pkg : List ℕ) (st : Session)
      → length pkg ≤ fuel
      → turns succeeds i addnew step_action fuel pkg st ≢ none
  unfolding turns
  turns-Ends fuel [] st enough = λ e. cc
  turns-Ends zero (c ∷ rest) st enough = absurd (omega (arith, enough))
  turns-Ends (suc fuel) (c ∷ rest) st enough =
      after_turn-Ends (length rest) (turn succeeds i addnew step_action c rest st)
        (turns succeeds i addnew step_action fuel) (turn-TurnLeaves c rest st)
        (λ rest' st' short. turns-Ends fuel rest' st' (omega (arith, short, enough)))

-- Behind the loop
add_for-Ends :
    (succeeds : ℕ → Bool) (i : ℕ) (addnew : Bool) (o : Option Entry) (pkg : List ℕ) (st : Session)
    → add_for succeeds i addnew o pkg st ≢ none
add_for-Ends succeeds i addnew none pkg st = λ e. cc
add_for-Ends succeeds i addnew (some e) [] st = λ e'. cc
add_for-Ends succeeds i addnew (some e) (c ∷ rest) st =
    if-elim (λ r. r ≢ none) (c == 83) _ _
      (λ s.
        if-elim (λ r. r ≢ none) (e.step == 0) (some (reply_invalid, st)) _ (λ z z'. cc)
          (λ z. turns-Ends succeeds i addnew true (length rest) rest st (omega arith)))
      (λ s.
        turns-Ends succeeds i addnew (not (length e.step_action_list == 0)) (suc (length rest))
          (c ∷ rest) st (omega arith))

module _ (succeeds : ℕ → Bool) where
  add_actions-Ends :
      (i : ℕ) (addnew : Bool) (pkg : List ℕ) (st : Session)
      → add_actions succeeds i addnew pkg st ≢ none
  unfolding add_actions
  add_actions-Ends i addnew pkg st = add_for-Ends succeeds i addnew (get_elem? st.entries i) pkg st

  after_fields-Ends :
      (es : List Entry) (r : Entry × Option (List ℕ)) (st : Session)
      → after_fields succeeds es r st ≢ none
  after_fields-Ends es (e, none) st = λ z. cc
  after_fields-Ends es (e, some rest) st = add_actions-Ends 0 true rest _

  set_fields-Ends :
      (es : List Entry) (pkg : List ℕ) (st : Session) → set_fields succeeds es pkg st ≢ none
  set_fields-Ends [] pkg st = λ z. cc
  set_fields-Ends (e ∷ es) pkg st =
      after_fields-Ends es (fields (disable_find e.addr st.disabled) e pkg) st

  after_add-Ends : (pkg : List ℕ) (r : Bool × Session) → after_add succeeds pkg r ≢ none
  after_add-Ends pkg (false, st) = λ z. cc
  after_add-Ends pkg (true, st) = set_fields-Ends st.entries pkg st

  at_place-Ends :
      (addnew : Bool) (num addr : ℕ) (pkg : List ℕ) (o : Option ℕ) (st : Session)
      → at_place succeeds addnew num addr pkg o st ≢ none
  at_place-Ends true num addr pkg (some i) st = λ z. cc
  at_place-Ends true num addr pkg none st = after_add-Ends pkg (list_add succeeds num addr st)
  at_place-Ends false num addr pkg (some i) st = add_actions-Ends i false pkg st
  at_place-Ends false num addr pkg none st = λ z. cc

  with_num_addr-Ends :
      (addnew : Bool) (o : Option (ℕ × ℕ × List ℕ)) (st : Session)
      → with_num_addr succeeds addnew o st ≢ none
  with_num_addr-Ends addnew none st = λ z. cc
  with_num_addr-Ends addnew (some (num, addr, pkg)) st =
      at_place-Ends addnew num addr pkg (list_find num addr st.entries) st

  signed-Ends : (pkg : List ℕ) (st : Session) → signed succeeds pkg st ≢ none
  signed-Ends [] st = λ z. cc
  signed-Ends (c ∷ rest) st =
      if-elim (λ r. r ≢ none) (c == 45) (with_num_addr succeeds false (num_addr rest) st)
        (with_num_addr succeeds true (num_addr (c ∷ rest)) st)
        (λ e. with_num_addr-Ends false (num_addr rest) st)
        (λ e. with_num_addr-Ends true (num_addr (c ∷ rest)) st)

  -- `gtp_gdbrsp_qtdp` returns, for every text and whichever allocations fail: the loop over the
  -- actions makes at most one round for each character of the text.
  pub qtdp-Ends : (pkg : List ℕ) (st : Session) → qtdp succeeds pkg st ≢ none
  unfolding qtdp
  qtdp-Ends pkg st =
      if-elim (λ r. r ≢ none) st.started (some (reply_busy, st)) (signed succeeds pkg st)
        (λ e z. cc) (λ e. signed-Ends pkg st)
