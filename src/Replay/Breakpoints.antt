-- ===== src/Replay/Breakpoints.antt =====
-- gtp.c, `gtp_gdbrsp_breakpoint`: the breakpoints of the replay.
use kgtp.Base.{
  ℕ, ◌+◌, ◌≡◌, refl, arith, Bool, true, false, List, [], ◌∷◌, ◌++◌, ◌==◌, if◌then◌else◌, Bool-cases,
  inl, inr, ap,
}
use kgtp.Hex.{hex2ulongest}
use kgtp.Packet.{Reply, reply_ok, reply_invalid, reply_no_memory}
use kgtp.Replay.{breakpoints_find}

-- `list_del` of the breakpoint that `gtp_breakpoints_find` returns
unfoldable pub breakpoints_del : List ℕ → ℕ → List ℕ
breakpoints_del [] addr = []
breakpoints_del (b ∷ bs) addr =
    let rest = breakpoints_del bs addr in if b == addr then bs else b ∷ rest

unfoldable pub insert_or_remove : Bool → Bool → ℕ → List ℕ → Reply × List ℕ
unfolding breakpoints_find breakpoints_del
insert_or_remove succeeds true addr bs =
    if succeeds then (reply_ok, bs ++ (addr ∷ [])) else (reply_no_memory, bs)
insert_or_remove succeeds false addr bs =
    if breakpoints_find bs addr then (reply_ok, breakpoints_del bs addr) else (reply_invalid, bs)

abbrev pub behind_addr : Bool → Bool → List ℕ → List ℕ × ℕ → Reply × List ℕ
behind_addr succeeds insert bs ([], addr) = (reply_invalid, bs)
behind_addr succeeds insert bs (c ∷ rest, addr) =
    if c == 44 then insert_or_remove succeeds insert addr bs else (reply_invalid, bs)

-- `gtp_gdbrsp_breakpoint`, where `succeeds` says whether there is memory
unfoldable pub breakpoint : Bool → Bool → List ℕ → List ℕ → Reply × List ℕ
unfolding insert_or_remove
breakpoint succeeds insert [] bs = (reply_invalid, bs)
breakpoint succeeds insert pkg bs = behind_addr succeeds insert bs (hex2ulongest pkg)

abbrev pub once : ℕ → ℕ → ℕ
once x b = if b == x then 1 else 0

-- How often an address has a breakpoint.
abbrev pub count : ℕ → List ℕ → ℕ
count x [] = 0
count x (b ∷ bs) = once x b + count x bs

find_last : (bs : List ℕ) (addr : ℕ) → breakpoints_find (bs ++ (addr ∷ [])) addr ≡ true
unfolding breakpoints_find
find_last [] addr = let same : (addr == addr) ≡ true = ground arith in rw same refl
find_last (b ∷ bs) addr = elim (Bool-cases (b == addr)) [
  | inl e ↦ rw e refl
  | inr e ↦ rw e (find_last bs addr)
]

count-append_one :
    (x addr : ℕ) (bs : List ℕ) → count x (bs ++ (addr ∷ [])) ≡ count x bs + once x addr
count-append_one x addr [] = omega arith
count-append_one x addr (b ∷ bs) = omega (arith, count-append_one x addr bs)

count-del_last :
    (x addr : ℕ) (bs : List ℕ) → count x (breakpoints_del (bs ++ (addr ∷ [])) addr) ≡ count x bs
unfolding breakpoints_del
count-del_last x addr [] = let same : (addr == addr) ≡ true = ground arith in rw same refl
count-del_last x addr (b ∷ bs) = elim (Bool-cases (b == addr)) [
  | inl e ↦
      let same : once x b ≡ once x addr = ap (once x) (ground (arith, e)) in
      rw e (omega (arith, count-append_one x addr bs, same))
  | inr e ↦ rw e (ap (λ n. once x b + n) (count-del_last x addr bs))
]

-- The breakpoint can be removed by `again`, and then every address has as many breakpoints as in `bs`.
abbrev pub RemovableBy : (List ℕ → Reply × List ℕ) → List ℕ → Reply × List ℕ → Type 0
RemovableBy again bs (reply_ok, bs') =
    (bs'' : List ℕ) × (again bs' ≡ (reply_ok, bs'')) × ((x : ℕ) → count x bs'' ≡ count x bs)
RemovableBy again bs (_, bs') = bs' ≡ bs

removed :
    (succeeds : Bool) (addr : ℕ) (bs : List ℕ)
    → insert_or_remove succeeds false addr (bs ++ (addr ∷ []))
      ≡ (reply_ok, breakpoints_del (bs ++ (addr ∷ [])) addr)
unfolding insert_or_remove
removed succeeds addr bs = rw (find_last bs addr) refl

insert-RemovableBy :
    (memory succeeds : Bool) (addr : ℕ) (bs : List ℕ)
    → RemovableBy (insert_or_remove succeeds false addr) bs (insert_or_remove memory true addr bs)
unfolding insert_or_remove
insert-RemovableBy true succeeds addr bs = (
  breakpoints_del (bs ++ (addr ∷ [])) addr,
  removed succeeds addr bs,
  λ x. count-del_last x addr bs,
)
insert-RemovableBy false succeeds addr bs = refl

behind_addr-RemovableBy :
    (memory succeeds : Bool) (bs : List ℕ) (p : List ℕ × ℕ)
    → RemovableBy (λ b. behind_addr succeeds false b p) bs (behind_addr memory true bs p)
behind_addr-RemovableBy memory succeeds bs ([], addr) = refl
behind_addr-RemovableBy memory succeeds bs (c ∷ rest, addr) = elim (Bool-cases (c == 44)) [
  | inl e ↦ rw e (insert-RemovableBy memory succeeds addr bs)
  | inr e ↦ rw e refl
]

-- A text that inserts a breakpoint removes it, so that every address has as many breakpoints as
-- before; a text that is refused, or for which there is no memory, leaves the breakpoints as they are.
pub breakpoint-RemovableBy :
    (memory succeeds : Bool) (pkg bs : List ℕ)
    → RemovableBy (breakpoint succeeds false pkg) bs (breakpoint memory true pkg bs)
unfolding breakpoint
breakpoint-RemovableBy memory succeeds [] bs = refl
breakpoint-RemovableBy memory succeeds (c ∷ cs) bs =
    behind_addr-RemovableBy memory succeeds bs (hex2ulongest (c ∷ cs))
