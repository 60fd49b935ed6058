-- ===== src/Packet/Entries.antt =====
-- gtp.c, `gtp_list_add`, `gtp_list_find`, `gtp_list_find_without_addr_do_check`,
-- `gtp_disable_find` and `gtp_src_add`.
use kgtp.Base.{
  ℕ, suc, ◌+◌, Bool, true, false, Option, none, some, List, [], ◌∷◌, ◌++◌, ◌==◌, ◌&&◌,
  if◌then◌else◌, get_elem?, set,
}
use kgtp.Packet.{Entry, Session, alloc, free}

-- One place further
abbrev pub shift : Option ℕ → Option ℕ
shift none = none
shift (some i) = some (suc i)

-- `gtp_list_find`, as the place in the list
unfoldable pub list_find : ℕ → ℕ → List Entry → Option ℕ
list_find num addr [] = none
list_find num addr (e ∷ es) =
    let rest = list_find num addr es in
    if e.num == num && e.addr == addr then some 0 else shift rest

-- The loop of `gtp_list_find_without_addr_do_check`, from the place `i` on, with `ret`
unfoldable pub find_num_from : ℕ → ℕ → Option ℕ → List Entry → Option ℕ
find_num_from num i ret [] = ret
find_num_from num i none (e ∷ es) =
    if e.num == num
    then find_num_from num (i + 1) (some i) es
    else find_num_from num (i + 1) none es
find_num_from num i (some j) (e ∷ es) =
    let rest = find_num_from num (i + 1) (some j) es in if e.num == num then none else rest

-- `gtp_list_find_without_addr_do_check`
unfoldable pub find_num : ℕ → List Entry → Option ℕ
unfolding find_num_from
find_num num es = find_num_from num 0 none es

-- `gtp_disable_find`
unfoldable pub disable_find : ℕ → List ℕ → Bool
disable_find addr [] = false
disable_find addr (d ∷ ds) = let rest = disable_find addr ds in if d == addr then true else rest

abbrev pub new_entry : ℕ → ℕ → ℕ → Entry
new_entry num addr pid = record {
  num = num;
  addr = addr;
  pid = pid;
  disable = false;
  step = 0;
  pass = 0;
  have_pass = false;
  cond = none;
  action_list = [];
  step_action_list = [];
  action_cmd = [];
  src = [];
}

-- Behind the allocation
abbrev pub add_entry : ℕ → ℕ → Option ℕ × Session → Bool × Session
add_entry num addr (none, st) = (false, st)
add_entry num addr (some b, st) =
    (true, record st { entries = new_entry num addr st.current_pid ∷ st.entries })

-- `gtp_list_add`: whether it succeeds; the new entry is the first of the list.
unfoldable pub list_add : (ℕ → Bool) → ℕ → ℕ → Session → Bool × Session
unfolding alloc
list_add succeeds num addr st = add_entry num addr (alloc succeeds st)

-- `gtp_strdup`, behind the allocation of the node `b`
abbrev pub dup_src :
    ℕ → List ℕ → List (List ℕ) → Option ℕ × Session → Option (List (List ℕ)) × Session
dup_src b text list (none, st) = (none, free b st)
dup_src b text list (some b', st) = (some (list ++ text ∷ []), st)

abbrev pub add_src :
    (ℕ → Bool) → List ℕ → List (List ℕ) → Option ℕ × Session → Option (List (List ℕ)) × Session
add_src succeeds text list (none, st) = (none, st)
add_src succeeds text list (some b, st) = dup_src b text list (alloc succeeds st)

-- `gtp_src_add`: the longer list, or none for -ENOMEM
unfoldable pub src_add :
    (ℕ → Bool) → List ℕ → List (List ℕ) → Session → Option (List (List ℕ)) × Session
unfolding alloc
src_add succeeds text list st = add_src succeeds text list (alloc succeeds st)

-- A change of the entry at a place
abbrev pub on_entry : ℕ → Option Entry → (Entry → Entry) → Session → Session
on_entry i none f st = st
on_entry i (some e) f st = record st { entries = set st.entries i (f e) }

unfoldable pub change : ℕ → (Entry → Entry) → Session → Session
change i f st = on_entry i (get_elem? st.entries i) f st
