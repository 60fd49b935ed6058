-- ===== src/Packet/FreedTwice.antt =====
-- gtp.c, `gtp_gdbrsp_qtdp`: an expression whose text is too short.
use kgtp.Base.{ℕ, ◌+◌, ◌^◌, ◌<◌, ◌≡◌, refl, Bool, true, some, List, ◌∷◌, ◌++◌, length}
use kgtp.Hex.Roundtrip.{AllBelow, digits, text, value_from, parse_x-short}
use kgtp.Packet.{Session, reply_invalid, alloc, free, action_release}
use kgtp.Packet.Qtdp.{out, act_x, turn}

alloc-here :
    (succeeds : ℕ → Bool) (st : Session)
    → succeeds st.allocs ≡ true
    → alloc succeeds st ≡ (some st.allocs, record st { allocs = st.allocs + 1 })
unfolding alloc
alloc-here succeeds st there = rw there refl

-- An action 'X', for an expression of a size that is written in digits, behind the comma with the text
-- of fewer bytes, where both allocations succeed. The block that `gtp_parse_x` allocates for the
-- expression is freed by `gtp_parse_x` and once more by `gtp_action_release`, which then frees the
-- action.
pub turn-frees_twice :
    (succeeds : ℕ → Bool) (i : ℕ) (addnew step_action : Bool) (d : ℕ) (ds bs : List ℕ)
    → (st : Session) → succeeds st.allocs ≡ true
    → succeeds (st.allocs + 1) ≡ true
    → AllBelow 16 (d ∷ ds)
    → length bs < value_from 0 (d ∷ ds)
    → value_from 0 (d ∷ ds) < 2 ^ 32
    → AllBelow 256 bs
    → turn succeeds i addnew step_action 88 (digits (d ∷ ds) ++ (44 ∷ text bs)) st
      ≡ out reply_invalid (record st {
        allocs = st.allocs + 1 + 1;
        freed = st.allocs ∷ (st.allocs + 1) ∷ (st.allocs + 1) ∷ st.freed;
      })
unfolding turn act_x action_release
turn-frees_twice succeeds i addnew step_action d ds bs st first second all short small bytes =
    let st₁ : Session = record st { allocs = st.allocs + 1 } in
    let st₂ : Session = record st { allocs = st.allocs + 1 + 1 } in
    rw
      (
        alloc-here succeeds st first,
        parse_x-short (λ size. alloc succeeds) free d (st.allocs + 1) ds bs st₁ st₂
            (alloc-here succeeds st₁ second) all short small bytes,
      )
      refl
