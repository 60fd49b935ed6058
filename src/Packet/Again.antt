-- ===== src/Packet/Again.antt =====
-- gtp.c, `gtp_gdbrsp_qtdp`: a command that is sent again.
use kgtp.Base.{ℕ, ◌+◌, ◌≡◌, refl, ap, ◌∙◌, Bool, true, false, Option, none, some, List, ◌∷◌, ◌==◌}
use kgtp.Packet.{Session, Reply, reply_invalid, alloc}
use kgtp.Packet.Entries.{list_find, list_add}
use kgtp.Packet.Qtdp.{num_addr, at_place, qtdp}
use kgtp.Packet.Keys.{keys, core, key_view}
use kgtp.Packet.Unique.{list_find-head, AddsIf, added-AddsIf}

-- A command for a new tracepoint, behind the number and the address
qtdp-new :
    (succeeds : ℕ → Bool) (c : ℕ) (rest : List ℕ) (num addr : ℕ) (text : List ℕ) (o : Option ℕ)
    → (st : Session) → st.started ≡ false
    → (c == 45) ≡ false
    → num_addr (c ∷ rest) ≡ some (num, addr, text)
    → list_find num addr st.entries ≡ o
    → qtdp succeeds (c ∷ rest) st ≡ at_place succeeds true num addr text o st
unfolding qtdp
qtdp-new succeeds c rest num addr text o st idle plus named found =
    rw (idle, plus, named, found) refl

module _ (succeeds : ℕ → Bool) (c : ℕ) (rest : List ℕ) (num addr : ℕ) (text : List ℕ) (st : Session)
    (idle : st.started ≡ false) (plus : (c == 45) ≡ false)
    (named : num_addr (c ∷ rest) ≡ some (num, addr, text))
    (new : list_find num addr st.entries ≡ none) (memory : succeeds st.allocs ≡ true) where
  first-AddsIf : AddsIf num addr st (qtdp succeeds (c ∷ rest) st)
  unfolding list_add alloc
  first-AddsIf =
      rw (qtdp-new succeeds c rest num addr text none st idle plus named new, memory)
        (added-AddsIf succeeds num addr text st (record st { allocs = st.allocs + 1 }) refl)

  again-refused :
      (succeeds' : ℕ → Bool) (o : Option (Reply × Session)) (r : Reply) (st' : Session)
      → o ≡ some (r, st')
      → AddsIf num addr st o
      → qtdp succeeds' (c ∷ rest) st' ≡ some (reply_invalid, st')
  again-refused succeeds' o r st' e added =
      let view : key_view (core st') ≡ ((num, addr) ∷ keys st.entries, st.started) =
        rw e at added in
      let found : list_find num addr st'.entries ≡ some 0 =
        list_find-head num addr st'.entries (keys st.entries)
          (ap (λ (v : List (ℕ × ℕ) × Bool). v.0) view) in
      let idle' : st'.started ≡ false = ap (λ (v : List (ℕ × ℕ) × Bool). v.1) view ∙ idle in
      qtdp-new succeeds' c rest num addr text (some 0) st' idle' plus named found

  -- `gtp_gdbrsp_qtdp` with a text for a tracepoint that is not in the list, tracing not started,
  -- where the memory for the tracepoint is there. Whatever it returns, an error included, the same
  -- text is then refused as wrong, and changes nothing: a tracepoint whose text has been refused
  -- stays in the list as far as it was read.
  pub qtdp-refuses_again :
      (succeeds' : ℕ → Bool) (r : Reply) (st' : Session)
      → qtdp succeeds (c ∷ rest) st ≡ some (r, st')
      → qtdp succeeds' (c ∷ rest) st' ≡ some (reply_invalid, st')
  qtdp-refuses_again succeeds' r st' e =
      again-refused succeeds' (qtdp succeeds (c ∷ rest) st) r st' e first-AddsIf
