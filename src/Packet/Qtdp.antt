-- ===== src/Packet/Qtdp.antt =====
-- gtp.c, `gtp_gdbrsp_qtdp` and `gtp_gdbrsp_qtdpsrc`.
use kgtp.Base.{
  ℕ, zero, suc, ◌-◌, ◌%◌, ◌^◌, Bool, true, false, not, ◌&&◌, ◌||◌, Option, none, some, List, [],
  ◌∷◌, ◌++◌, ◌==◌, ltb, if◌then◌else◌, length, get_elem?,
}
use kgtp.Hex.{hex2ulongest, Parsed, parsed, bad_text, no_memory, parse_x}
use kgtp.Packet.{
  Entry, Session, Act, Body, collect, regs, expression, Reply, reply_ok, reply_busy, reply_invalid,
  reply_no_memory, reply_unsupported, alloc, free, action_release,
}
use kgtp.Packet.Entries.{list_find, disable_find, list_add, src_add, change}

-- Behind a number: one character is passed over, if there is one.
abbrev pub behind : List ℕ × ℕ → Option (ℕ × List ℕ)
behind ([], v) = none
behind (c ∷ rest, v) = some (v, rest)

abbrev pub with_addr : ℕ → Option (ℕ × List ℕ) → Option (ℕ × ℕ × List ℕ)
with_addr num none = none
with_addr num (some (addr, rest)) = some (num, addr, rest)

abbrev pub num_addr_from : Option (ℕ × List ℕ) → Option (ℕ × ℕ × List ℕ)
num_addr_from none = none
num_addr_from (some (num, pkg)) = with_addr num (behind (hex2ulongest pkg))

-- `Get num and addr.`, with the text behind them
unfoldable pub num_addr : List ℕ → Option (ℕ × ℕ × List ℕ)
num_addr pkg = num_addr_from (behind (hex2ulongest pkg))

-- `Get pass.`
abbrev pub pass_field : Entry → List ℕ × ℕ → Entry × List ℕ
pass_field e (rest, v) = (record e { pass = v; have_pass = not (v == 0) }, rest)

-- Behind the number of `Get step.`
abbrev pub step_field : Entry → List ℕ × ℕ → Entry × Option (List ℕ)
step_field e ([], v) = (e, none)
step_field e (c ∷ rest, v) =
    let (e', rest') = pass_field (record e { step = v % 2 ^ 32 }) (hex2ulongest rest) in
    (e', some rest')

abbrev pub after_disable : Entry → List ℕ → Entry × Option (List ℕ)
after_disable e [] = (e, none)
after_disable e (c ∷ rest) = step_field e (hex2ulongest rest)

-- The fields of a new tracepoint, where `known` is what `gtp_disable_find` returns. The entry is
-- changed as far as the text goes; without a text to go on with the command is wrong.
unfoldable pub fields : Bool → Entry → List ℕ → Entry × Option (List ℕ)
fields known e [] = (e, none)
fields known e (c ∷ rest) = after_disable (record e { disable = c == 68 || known }) rest

-- `if (tpe->step > 1) gtp_have_step = 1;`, for an `int`
abbrev pub is_many : ℕ → Bool
is_many step = ltb 1 step && ltb step (2 ^ 31)

-- A number, and the character behind it
abbrev pub mem_size : ℕ → ℕ → List ℕ × ℕ → Option Body × List ℕ
mem_size regnum offset (rest, size) = (some (collect regnum offset size), rest)

abbrev pub mem_offset : ℕ → List ℕ × ℕ → Option Body × List ℕ
mem_offset regnum ([], v) = (none, [])
mem_offset regnum (c ∷ rest, v) = mem_size regnum v (hex2ulongest rest)

abbrev pub mem_reg : Bool → List ℕ × ℕ → Option Body × List ℕ
mem_reg is_neg ([], v) = (none, [])
mem_reg is_neg (c ∷ rest, v) =
    let reg = v % 2 ^ 32 in
    mem_offset (if is_neg then (2 ^ 32 - reg) % 2 ^ 32 else reg) (hex2ulongest rest)

-- `case 'M'` behind the allocation: none for a text that is too short
unfoldable pub parse_m : List ℕ → Option Body × List ℕ
parse_m [] = mem_reg false (hex2ulongest [])
parse_m (c ∷ rest) =
    if c == 45 then mem_reg true (hex2ulongest rest) else mem_reg false (hex2ulongest (c ∷ rest))

-- Where one round of the loop over the actions leads
pub data Turn : Type 0 where
  go_on : List ℕ → Session → Turn
  out : Reply → Session → Turn

abbrev pub is_expression : Body → Bool
is_expression (expression bytes buf) = true
is_expression _ = false

abbrev pub is_none : Option Act → Bool
is_none none = true
is_none (some a) = false

-- `Add ae to tpe.`
unfoldable pub place : Bool → Bool → Act → Entry → Entry
place addnew step_action a e =
    if is_expression a.body && addnew && is_none e.cond
    then record e { cond = some a }
    else if step_action
    then record e { step_action_list = e.step_action_list ++ a ∷ [] }
    else record e { action_list = e.action_list ++ a ∷ [] }

-- The text from `pkg` up to `rest`
unfoldable pub text_before : ℕ → List ℕ → List ℕ
text_before zero pkg = []
text_before (suc n) [] = []
text_before (suc n) (c ∷ cs) = c ∷ text_before n cs

module _ (succeeds : ℕ → Bool) (i : ℕ) (addnew step_action : Bool) where
  -- `Save the cmd.`, and what follows it
  abbrev pub saved : Act → List ℕ → Option (List (List ℕ)) × Session → Turn
  saved a rest (none, st) = out reply_no_memory (action_release a st)
  saved a rest (some cmds, st) =
      go_on rest (change i (λ e. place addnew step_action a (record e { action_cmd = cmds })) st)

  abbrev pub save_for : Option Entry → Act → List ℕ → List ℕ → Session → Turn
  save_for none a pkg rest st = out reply_invalid st
  save_for (some e) a pkg rest st =
      saved a rest (src_add succeeds (text_before (length pkg - length rest) pkg) e.action_cmd st)

  unfoldable pub save : Act → List ℕ → List ℕ → Session → Turn
  unfolding action_release src_add change place text_before
  save a pkg rest st = save_for (get_elem? st.entries i) a pkg rest st

  abbrev pub with_m : ℕ → List ℕ → Option Body × List ℕ → Session → Turn
  with_m b pkg (none, rest) st = out reply_invalid (free b st)
  with_m b pkg (some body, rest) st = save (record { block = b; body = body }) pkg rest st

  abbrev pub with_r : ℕ → List ℕ → List ℕ × ℕ → Session → Turn
  with_r b pkg (rest, mask) st = save (record { block = b; body = regs mask }) pkg rest st

  -- Behind `gtp_parse_x`: `if (ret) gtp_action_release(ae);`. `kfree` of NULL does nothing.
  abbrev pub with_x : ℕ → List ℕ → Parsed × List ℕ × Session → Turn
  with_x b pkg (parsed buf bytes, rest, st) =
      save (record { block = b; body = expression bytes buf }) pkg rest st
  with_x b pkg (bad_text (some buf), rest, st) =
      out reply_invalid (action_release (record { block = b; body = expression [] buf }) st)
  with_x b pkg (bad_text none, rest, st) = out reply_invalid (free b st)
  with_x b pkg (no_memory, rest, st) = out reply_no_memory (free b st)

  -- `case 'X'` behind the first allocation
  unfoldable pub act_x : ℕ → List ℕ → List ℕ → Session → Turn
  unfolding save action_release alloc
  act_x b pkg rest st = with_x b pkg (parse_x (λ size. alloc succeeds) free rest st)

  -- `ae = gtp_action_alloc(pkg[0]); if (!ae) return -ENOMEM;`
  abbrev pub with_action : Option ℕ × Session → (ℕ → Session → Turn) → Turn
  with_action (none, st) k = out reply_no_memory st
  with_action (some b, st) k = k b st

  -- The `switch (pkg[0])`
  unfoldable pub turn : ℕ → List ℕ → Session → Turn
  unfolding alloc save act_x parse_m
  turn c rest st =
      let pkg = c ∷ rest in
      if c == 58 || c == 45
      then go_on rest st
      else if c == 77
      then with_action (alloc succeeds st) (λ b st'. with_m b pkg (parse_m rest) st')
      else if c == 82
      then with_action (alloc succeeds st) (λ b st'. with_r b pkg (hex2ulongest rest) st')
      else if c == 88
      then with_action (alloc succeeds st) (λ b st'. act_x b pkg rest st')
      else out reply_unsupported st

  abbrev pub after_turn :
      (List ℕ → Session → Option (Reply × Session)) → Turn → Option (Reply × Session)
  after_turn again (go_on rest st) = again rest st
  after_turn again (out r st) = some (r, st)

  -- `while (pkg[0])`; none is too little fuel.
  unfoldable pub turns : ℕ → List ℕ → Session → Option (Reply × Session)
  unfolding turn
  turns fuel [] st = some (reply_ok, st)
  turns zero (c ∷ rest) st = none
  turns (suc fuel) (c ∷ rest) st = after_turn (turns fuel) (turn c rest st)

-- `Add action to tpe.`, for the entry at the place `i`
abbrev pub add_for :
    (ℕ → Bool) → ℕ → Bool → Option Entry → List ℕ → Session → Option (Reply × Session)
add_for succeeds i addnew none pkg st = some (reply_invalid, st)
add_for succeeds i addnew (some e) [] st = some (reply_ok, st)
add_for succeeds i addnew (some e) (c ∷ rest) st =
    let step_action = not (length e.step_action_list == 0) in
    if c == 83
    then (if e.step == 0
        then some (reply_invalid, st)
        else turns succeeds i addnew true (length rest) rest st)
    else turns succeeds i addnew step_action (suc (length rest)) (c ∷ rest) st

unfoldable pub add_actions : (ℕ → Bool) → ℕ → Bool → List ℕ → Session → Option (Reply × Session)
unfolding turns
add_actions succeeds i addnew pkg st = add_for succeeds i addnew (get_elem? st.entries i) pkg st

-- The fields of the new entry, which is the first of the list, and its actions
abbrev pub after_fields :
    (ℕ → Bool) → List Entry → Entry × Option (List ℕ) → Session → Option (Reply × Session)
after_fields succeeds es (e, none) st = some (reply_invalid, record st { entries = e ∷ es })
after_fields succeeds es (e, some rest) st =
    add_actions succeeds 0 true rest
      (record st { entries = e ∷ es; have_step = is_many e.step || st.have_step })

abbrev pub set_fields : (ℕ → Bool) → List Entry → List ℕ → Session → Option (Reply × Session)
set_fields succeeds [] pkg st = some (reply_no_memory, st)
set_fields succeeds (e ∷ es) pkg st =
    after_fields succeeds es (fields (disable_find e.addr st.disabled) e pkg) st

-- Behind `gtp_list_add`
abbrev pub after_add : (ℕ → Bool) → List ℕ → Bool × Session → Option (Reply × Session)
after_add succeeds pkg (false, st) = some (reply_no_memory, st)
after_add succeeds pkg (true, st) = set_fields succeeds st.entries pkg st

abbrev pub at_place :
    (ℕ → Bool) → Bool → ℕ → ℕ → List ℕ → Option ℕ → Session → Option (Reply × Session)
at_place succeeds true num addr pkg (some i) st = some (reply_invalid, st)
at_place succeeds true num addr pkg none st = after_add succeeds pkg (list_add succeeds num addr st)
at_place succeeds false num addr pkg (some i) st = add_actions succeeds i false pkg st
at_place succeeds false num addr pkg none st = some (reply_invalid, st)

abbrev pub with_num_addr :
    (ℕ → Bool) → Bool → Option (ℕ × ℕ × List ℕ) → Session → Option (Reply × Session)
with_num_addr succeeds addnew none st = some (reply_invalid, st)
with_num_addr succeeds addnew (some (num, addr, pkg)) st =
    at_place succeeds addnew num addr pkg (list_find num addr st.entries) st

abbrev pub signed : (ℕ → Bool) → List ℕ → Session → Option (Reply × Session)
signed succeeds [] st = some (reply_invalid, st)
signed succeeds (c ∷ rest) st =
    if c == 45
    then with_num_addr succeeds false (num_addr rest) st
    else with_num_addr succeeds true (num_addr (c ∷ rest)) st

-- `gtp_gdbrsp_qtdp`
unfoldable pub qtdp : (ℕ → Bool) → List ℕ → Session → Option (Reply × Session)
unfolding add_actions fields list_add list_find num_addr
qtdp succeeds pkg st = if st.started then some (reply_busy, st) else signed succeeds pkg st

-- Behind `gtp_src_add(pkg, NULL, &(tpe->src))`
abbrev pub keep_src : ℕ → Option (List (List ℕ)) × Session → Reply × Session
keep_src i (none, st) = (reply_no_memory, st)
keep_src i (some list, st) = (reply_ok, change i (λ e. record e { src = list }) st)

abbrev pub src_for : (ℕ → Bool) → List ℕ → Option Entry → ℕ → Session → Reply × Session
src_for succeeds pkg none i st = (reply_invalid, st)
src_for succeeds pkg (some e) i st = keep_src i (src_add succeeds pkg e.src st)

abbrev pub src_at : (ℕ → Bool) → List ℕ → Option ℕ → Session → Reply × Session
src_at succeeds pkg none st = (reply_invalid, st)
src_at succeeds pkg (some i) st = src_for succeeds pkg (get_elem? st.entries i) i st

abbrev pub src_of : (ℕ → Bool) → Option (ℕ × ℕ × List ℕ) → Session → Reply × Session
src_of succeeds none st = (reply_invalid, st)
src_of succeeds (some (num, addr, pkg)) st = src_at succeeds pkg (list_find num addr st.entries) st

-- `gtp_gdbrsp_qtdpsrc`
unfoldable pub qtdpsrc : (ℕ → Bool) → List ℕ → Session → Reply × Session
unfolding src_add change list_find num_addr
qtdpsrc succeeds pkg st = if st.started then (reply_busy, st) else src_of succeeds (num_addr pkg) st
