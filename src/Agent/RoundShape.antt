-- ===== src/Agent/RoundShape.antt =====
-- A round of `gtp_check_x_simple` against the table of shapes.
use kgtp.Base.{
  ℕ, ◌+◌, ◌-◌, ◌≤◌, ◌<◌, ◌≡◌, ◌≢◌, refl, Bool, true, false, ltb, leb, if◌then◌else◌, Option, [],
  arith, length,
}
use kgtp.Agent.Round.{Simple, Round, go_on, at_end, release, crash, take_sp, skip, push_sp, target}
use kgtp.Agent.Shape.{Shape, plain, jumps, branches, ends}
use kgtp.Agent.Kept.{Kept, Kept-refl}

-- From `s` (behind the code) to `t`, by k bytes, taking n values and leaving p.
pub record Advance (s t : Simple) (k n p : ℕ) : Type 0 where
  pub pc : t.pc ≡ s.pc + k
  pub room : s.pc + k ≤ length s.check.ebuf
  pub enough : n ≤ s.sp
  pub sp : t.sp ≡ s.sp - n + p
  pub kept : Kept s.pc s.check.ebuf t.check.ebuf
  pub sp_max : s.sp_max ≤ t.sp_max
  pub peak : s.sp ≤ s.sp_max → t.sp ≤ t.sp_max
  pub glist : t.glist ≡ s.glist

pub record Leap (s t : Simple) : Type 0 where
  pub pc : t.pc ≡ target s
  pub forward : s.pc ≤ target s
  pub room : s.pc + 1 < length s.check.ebuf
  pub sp : t.sp ≡ s.sp
  pub sp_max : t.sp_max ≡ s.sp_max
  pub ebuf : t.check.ebuf ≡ s.check.ebuf
  pub glist : t.glist ≡ s.glist

-- Where a round that goes on leads, for each shape.
abbrev pub Moves : Simple → Simple → Shape → Type 0
Moves s t (plain k n p) = Advance s t k n p
Moves s t jumps = Leap s t
Moves s t branches =
    (t.glist ≢ [])
    × (t.sp ≡ s.sp)
    × (t.sp_max ≡ s.sp_max)
    × (t.check.ebuf ≡ s.check.ebuf)
    × (t.pc ≡ s.pc + 2)
Moves s t _ = ⊥

-- The same of the round as a whole; the round that ends the path changes nothing.
abbrev pub Effect : Simple → Shape → Round → Type 0
Effect s x (go_on t) = Moves s t x
Effect s x (at_end t) = (x ≡ ends) × (t ≡ s)
Effect s x (release r t) = Unit
Effect s x crash = Unit

-- A branch of the code, with what its test has found.
pub if-Effect :
    (s : Simple) (x : Shape) (r₁ r₂ : Round) (b : Bool)
    → (b ≡ true → Effect s x r₁)
    → (b ≡ false → Effect s x r₂)
    → Effect s x (if b then r₁ else r₂)
if-Effect s x r₁ r₂ true f g = f refl
if-Effect s x r₁ r₂ false f g = g refl

module _ (s : Simple) (in_buf : s.pc ≤ length s.check.ebuf) where
  pub take_sp-Effect :
      (n k p : ℕ) (l : Option ℕ)
      → k + p ≡ n
      → Effect s (plain 0 n p) (take_sp n k (record s { last_trace = l }))
  take_sp-Effect n k p l split =
      if-Effect s (plain 0 n p) _ _ (ltb s.sp n) (λ e. tt)
        (λ e. record {
          pc = omega arith;
          room = omega arith;
          enough = ground arith;
          sp = ground arith;
          kept = Kept-refl s.pc s.check.ebuf;
          sp_max = omega arith;
          peak = λ h. omega arith;
          glist = refl;
        })

  pub skip-Effect :
      (k : ℕ) (l : Option ℕ)
      → 0 < k
      → Effect s (plain k 0 0) (skip k (record s { last_trace = l }) go_on)
  skip-Effect k l pos =
      if-Effect s (plain k 0 0) _ _ (leb (length s.check.ebuf) (s.pc + (k - 1))) (λ e. tt)
        (λ e. record {
          pc = refl;
          room = ground arith;
          enough = omega arith;
          sp = omega arith;
          kept = Kept-refl s.pc s.check.ebuf;
          sp_max = omega arith;
          peak = λ h. h;
          glist = refl;
        })

  pub skip_push-Effect :
      (k : ℕ) → 0 < k → Effect s (plain k 0 1) (skip k s (λ s'. go_on (push_sp s')))
  skip_push-Effect k pos =
      if-Effect s (plain k 0 1) _ _ (leb (length s.check.ebuf) (s.pc + (k - 1))) (λ e. tt)
        (λ e. record {
          pc = refl;
          room = ground arith;
          enough = omega arith;
          sp = omega arith;
          kept = Kept-refl s.pc s.check.ebuf;
          sp_max = omega arith;
          peak = λ h. omega arith;
          glist = refl;
        })

  pub push_skip-Effect : (k : ℕ) → 0 < k → Effect s (plain k 0 1) (skip k (push_sp s) go_on)
  push_skip-Effect k pos =
      if-Effect s (plain k 0 1) _ _ (leb (length s.check.ebuf) (s.pc + (k - 1))) (λ e. tt)
        (λ e. record {
          pc = refl;
          room = ground arith;
          enough = omega arith;
          sp = omega arith;
          kept = Kept-refl s.pc s.check.ebuf;
          sp_max = omega arith;
          peak = λ h. omega arith;
          glist = refl;
        })

  pub stay-Effect : Effect s (plain 0 0 0) (go_on s)
  stay-Effect = record {
    pc = omega arith;
    room = omega arith;
    enough = omega arith;
    sp = omega arith;
    kept = Kept-refl s.pc s.check.ebuf;
    sp_max = omega arith;
    peak = λ h. h;
    glist = refl;
  }

  pub dup-Effect : Effect s (plain 0 0 1) (go_on (push_sp s))
  dup-Effect = record {
    pc = omega arith;
    room = omega arith;
    enough = omega arith;
    sp = omega arith;
    kept = Kept-refl s.pc s.check.ebuf;
    sp_max = omega arith;
    peak = λ h. omega arith;
    glist = refl;
  }
