-- ===== src/Packet/Unique.antt =====
-- gtp.c, `gtp_gdbrsp_qtdp`: a number and an address are those of at most one tracepoint.
use kgtp.Base.{
  ℕ, ◌%◌, ◌^◌, ◌≡◌, ◌≢◌, refl, sym, ap, ◌∙◌, ◌⊎◌, inl, inr, arith, Bool, true, false, ◌&&◌, ◌||◌,
  Option, none, some, List, [], ◌∷◌, ◌==◌, if-elim, Bool-cases,
}
use mathlib.Core.Path.{subst}
use kgtp.Hex.{hex2ulongest}
use kgtp.Packet.{Entry, Session, Reply, reply_busy, alloc}
use kgtp.Packet.Entries.{shift, list_find, disable_find, new_entry, add_entry, list_add}
use kgtp.Packet.Qtdp.{
  num_addr, fields, step_field, pass_field, is_many, add_actions, after_fields, after_add, at_place,
  with_num_addr, signed, qtdp,
}
use kgtp.Packet.Keys.{
  key, keys, core, key_view, alloc-entries, SameKeys, LoopKeeps, add_actions-LoopKeeps,
}

-- The key is that of no tracepoint of the list.
abbrev pub IsNew : ℕ → ℕ → List (ℕ × ℕ) → Type 0
IsNew num addr [] = Unit
IsNew num addr (k ∷ ks) = ((k.0 ≢ num) ⊎ (k.1 ≢ addr)) × IsNew num addr ks

abbrev pub IsDistinct : List (ℕ × ℕ) → Type 0
IsDistinct [] = Unit
IsDistinct (k ∷ ks) = IsNew k.0 k.1 ks × IsDistinct ks

shift-none : (o : Option ℕ) → shift o ≡ none → o ≡ none
shift-none none e = refl
shift-none (some i) e = cc

list_find-IsNew :
    (num addr : ℕ) (es : List Entry) → list_find num addr es ≡ none → IsNew num addr (keys es)
unfolding list_find
list_find-IsNew num addr [] e = tt
list_find-IsNew num addr (x ∷ es) e = elim (Bool-cases (x.num == num && x.addr == addr)) [
  | inl same ↦ absurd (ground (arith, e, same))
  | inr apart ↦ (
    ground arith,
    list_find-IsNew num addr es (shift-none (list_find num addr es) (sym (rw apart refl) ∙ e)),
  )
]

-- The first tracepoint of the list is found.
pub list_find-head :
    (num addr : ℕ) (es : List Entry) (ks : List (ℕ × ℕ))
    → keys es ≡ (num, addr) ∷ ks
    → list_find num addr es ≡ some 0
unfolding list_find
list_find-head num addr [] ks e = cc
list_find-head num addr (x ∷ es) ks e =
    let first : key x ≡ (num, addr) = ap (first_or (num, addr)) e in
    let n : x.num ≡ num = ap (λ (k : ℕ × ℕ). k.0) first in
    let a : x.addr ≡ addr = ap (λ (k : ℕ × ℕ). k.1) first in
    let found : (x.num == num && x.addr == addr) ≡ true = ground (arith, n, a) in rw found refl
  where
    first_or : ℕ × ℕ → List (ℕ × ℕ) → ℕ × ℕ
    first_or d [] = d
    first_or d (k ∷ rest) = k

-- The fields do not change the key.
pass_field-key : (e : Entry) (r : List ℕ × ℕ) → key (pass_field e r).0 ≡ key e
pass_field-key e (rest, v) = refl

step_field-key : (e : Entry) (r : List ℕ × ℕ) → key (step_field e r).0 ≡ key e
step_field-key e ([], v) = refl
step_field-key e (c ∷ rest, v) = pass_field-key (record e { step = v % 2 ^ 32 }) (hex2ulongest rest)

fields-key : (known : Bool) (e : Entry) (pkg : List ℕ) → key (fields known e pkg).0 ≡ key e
unfolding fields
fields-key known e [] = refl
fields-key known e (c ∷ []) = refl
fields-key known e (c ∷ d ∷ rest) =
    step_field-key (record e { disable = c == 68 || known }) (hex2ulongest rest)

-- One tracepoint more, which was not there, or the same ones
abbrev pub Adds : ℕ → ℕ → Session → Session → Type 0
Adds num addr st st' =
    (list_find num addr st.entries ≡ none)
    × (key_view (core st') ≡ ((num, addr) ∷ keys st.entries, st.started))

abbrev pub KeysAfter : Session → Option (Reply × Session) → Type 0
KeysAfter st none = Unit
KeysAfter st (some (r, st')) = SameKeys st st' ⊎ ((num : ℕ) × (addr : ℕ) × Adds num addr st st')

same-KeysAfter : (st : Session) (o : Option (Reply × Session)) → LoopKeeps st o → KeysAfter st o
same-KeysAfter st none h = tt
same-KeysAfter st (some (r, st')) h = inl h

-- The new tracepoint and its actions
abbrev pub AddsIf : ℕ → ℕ → Session → Option (Reply × Session) → Type 0
AddsIf num addr st none = Unit
AddsIf num addr st (some (r, st')) =
    key_view (core st') ≡ ((num, addr) ∷ keys st.entries, st.started)

loop-AddsIf :
    (num addr : ℕ) (st st₁ : Session) (o : Option (Reply × Session))
    → key_view (core st₁) ≡ ((num, addr) ∷ keys st.entries, st.started)
    → LoopKeeps st₁ o
    → AddsIf num addr st o
loop-AddsIf num addr st st₁ none e h = tt
loop-AddsIf num addr st st₁ (some (r, st')) e h = h ∙ e

AddsIf-KeysAfter :
    (num addr : ℕ) (st : Session) (o : Option (Reply × Session))
    → list_find num addr st.entries ≡ none
    → AddsIf num addr st o
    → KeysAfter st o
AddsIf-KeysAfter num addr st none new h = tt
AddsIf-KeysAfter num addr st (some (r, st')) new h = inr (num, addr, (new, h))

module _ (succeeds : ℕ → Bool) where
  after_fields-AddsIf :
      (num addr : ℕ) (st st₁ : Session) (es : List Entry) (r : Entry × Option (List ℕ))
      → key r.0 ≡ (num, addr)
      → core (record st₁ { entries = es }) ≡ core st
      → AddsIf num addr st (after_fields succeeds es r st₁)
  after_fields-AddsIf num addr st st₁ es (e, none) same old =
      ap (λ k. (k ∷ keys es, st₁.started)) same
      ∙ ap (λ (c : List Entry × Bool). ((num, addr) ∷ keys c.0, c.1)) old
  after_fields-AddsIf num addr st st₁ es (e, some rest) same old =
      let st₂ : Session = record st₁ {
        entries = e ∷ es;
        have_step = is_many e.step || st₁.have_step;
      } in
      loop-AddsIf num addr st st₂ (add_actions succeeds 0 true rest st₂)
        (ap (λ k. (k ∷ keys es, st₁.started)) same
          ∙ ap (λ (c : List Entry × Bool). ((num, addr) ∷ keys c.0, c.1)) old)
        (add_actions-LoopKeeps succeeds 0 true rest st₂)

  -- Behind the allocation of the new tracepoint
  pub added-AddsIf :
      (num addr : ℕ) (pkg : List ℕ) (st st₁ : Session)
      → core st₁ ≡ core st
      → AddsIf num addr st (
          after_add succeeds pkg
            (true, record st₁ { entries = new_entry num addr st₁.current_pid ∷ st₁.entries }))
  added-AddsIf num addr pkg st st₁ same =
      let e = new_entry num addr st₁.current_pid in
      after_fields-AddsIf num addr st (record st₁ { entries = e ∷ st₁.entries }) st₁.entries
        (fields (disable_find addr st₁.disabled) e pkg)
        (fields-key (disable_find addr st₁.disabled) e pkg) same

  after_add-KeysAfter :
      (num addr : ℕ) (pkg : List ℕ) (st : Session) (r : Option ℕ × Session)
      → list_find num addr st.entries ≡ none
      → core r.1 ≡ core st
      → KeysAfter st (after_add succeeds pkg (add_entry num addr r))
  after_add-KeysAfter num addr pkg st (none, st₁) new same = inl (ap key_view same)
  after_add-KeysAfter num addr pkg st (some b, st₁) new same =
      AddsIf-KeysAfter num addr st (after_add succeeds pkg (add_entry num addr (some b, st₁))) new
        (added-AddsIf num addr pkg st st₁ same)

  -- A command for the place that `gtp_list_find` has found, or for none
  at_place-KeysAfter :
      (addnew : Bool) (num addr : ℕ) (pkg : List ℕ) (o : Option ℕ) (st : Session)
      → list_find num addr st.entries ≡ o
      → KeysAfter st (at_place succeeds addnew num addr pkg o st)
  unfolding list_add
  at_place-KeysAfter true num addr pkg (some i) st found = inl refl
  at_place-KeysAfter true num addr pkg none st found =
      after_add-KeysAfter num addr pkg st (alloc succeeds st) found (alloc-entries succeeds st)
  at_place-KeysAfter false num addr pkg (some i) st found =
      same-KeysAfter st (add_actions succeeds i false pkg st)
        (add_actions-LoopKeeps succeeds i false pkg st)
  at_place-KeysAfter false num addr pkg none st found = inl refl

  with_num_addr-KeysAfter :
      (addnew : Bool) (o : Option (ℕ × ℕ × List ℕ)) (st : Session)
      → KeysAfter st (with_num_addr succeeds addnew o st)
  with_num_addr-KeysAfter addnew none st = inl refl
  with_num_addr-KeysAfter addnew (some (num, addr, pkg)) st =
      at_place-KeysAfter addnew num addr pkg (list_find num addr st.entries) st refl

  signed-KeysAfter : (pkg : List ℕ) (st : Session) → KeysAfter st (signed succeeds pkg st)
  signed-KeysAfter [] st = inl refl
  signed-KeysAfter (c ∷ rest) st =
      if-elim (KeysAfter st) (c == 45) (with_num_addr succeeds false (num_addr rest) st)
        (with_num_addr succeeds true (num_addr (c ∷ rest)) st)
        (λ e. with_num_addr-KeysAfter false (num_addr rest) st)
        (λ e. with_num_addr-KeysAfter true (num_addr (c ∷ rest)) st)

  qtdp-KeysAfter : (pkg : List ℕ) (st : Session) → KeysAfter st (qtdp succeeds pkg st)
  unfolding qtdp
  qtdp-KeysAfter pkg st =
      if-elim (KeysAfter st) st.started (some (reply_busy, st)) (signed succeeds pkg st)
        (λ e. inl refl) (λ e. signed-KeysAfter pkg st)

  -- The tracepoints that are left have keys of their own.
  abbrev pub DistinctAfter : Option (Reply × Session) → Type 0
  DistinctAfter none = Unit
  DistinctAfter (some (r, st)) = IsDistinct (keys st.entries)

  kept-Distinct :
      (st : Session) (o : Option (Reply × Session))
      → IsDistinct (keys st.entries)
      → KeysAfter st o
      → DistinctAfter o
  kept-Distinct st none d k = tt
  kept-Distinct st (some (r, st')) d k = elim k [
    | inl same ↦ subst (λ (v : List (ℕ × ℕ) × Bool). IsDistinct v.0) (sym same) d
    | inr (num, addr, adds) ↦
        subst (λ (v : List (ℕ × ℕ) × Bool). IsDistinct v.0) (sym adds.1)
          (list_find-IsNew num addr st.entries adds.0, d)
  ]

  -- `gtp_gdbrsp_qtdp` with any text, whatever it returns and whichever allocations fail: where no
  -- two tracepoints have the same number and address, none have them behind it.
  pub qtdp-IsDistinct :
      (pkg : List ℕ) (st : Session)
      → IsDistinct (keys st.entries)
      → DistinctAfter (qtdp succeeds pkg st)
  qtdp-IsDistinct pkg st d = kept-Distinct st (qtdp succeeds pkg st) d (qtdp-KeysAfter pkg st)
