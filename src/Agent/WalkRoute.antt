-- ===== src/Agent/WalkRoute.antt =====
-- gtp.c, from a path that `gtp_check_x_simple` follows to a route of the buffer that it leaves.
use mathlib.Core.Path.{subst₂, ap₂}
use native.Mathlib.Decide.{dec_lt}
use kgtp.Base.{
  ℕ, zero, suc, ◌+◌, ◌-◌, ◌*◌, ◌≤◌, ◌<◌, ◌≡◌, refl, sym, ap, ◌∙◌, false, some, List, [], arith,
  length, get_elem?, get_or, get_elem?-eq-get_or, lt-length_of_get, ◌⊎◌, inl, inr, Option-cases,
}
use kgtp.Agent.Op.{Op, DivOp, decode, goto, end}
use kgtp.Agent.Word.{Shifts}
use kgtp.Agent.Fold.{Folded, folded, by_zero, wild, fold_step}
use kgtp.Agent.Tsv.{Config, Check, Ret}
use kgtp.Agent.Round.{Simple, Round, go_on, at_end, release, crash, round, target}
use kgtp.Agent.Simple.{PathEnd, ended, released, after_fold, check_round, on_round, on_code, walk}
use kgtp.Agent.Shape.{Shape, plain, jumps, branches, ends, unchecked, shape}
use kgtp.Agent.Kept.{Kept, Kept-refl, Kept-trans, Kept-le, Kept-from}
use kgtp.Agent.RoundShape.{Advance, Leap, Moves, Effect}
use kgtp.Agent.RoundEffect.{round-Effect}
use kgtp.Agent.Quiet.{names_var, Quiet, round-Quiet, names_var-decode_low}
use kgtp.Agent.Route.{Route, stops, steps, leaps}

-- Only `goto` jumps, and only `end` ends.
shape-jumps : (op : Op) → shape op ≡ jumps → op ≡ goto
unfolding shape
shape-jumps goto e = refl
shape-jumps _ e = cc

shape-ends : (op : Op) → shape op ≡ ends → op ≡ end
unfolding shape
shape-ends end e = refl
shape-ends _ e = cc

le_cases : (a b : ℕ) → a ≤ b → (suc a ≤ b) ⊎ (b ≡ a)
le_cases a b le = elim (dec_lt a b) [ yes lt ↦ inl lt | no ge ↦ inr (omega arith) ]

-- What the rest of a path, from `s` to its end `t`, tells of `s`.
pub record Found (t s : Simple) : Type 0 where
  pub route : Route t.check.ebuf s.pc s.sp
  pub kept : Kept (s.pc + 1) s.check.ebuf t.check.ebuf
  pub kept_low :
      (b : ℕ)
      → get_elem? s.check.ebuf s.pc ≡ some b
      → b < 0x2c
      → Kept (s.pc + 2) s.check.ebuf t.check.ebuf
  pub glist : s.glist ≡ []
  pub sp_max : s.sp_max ≤ t.sp_max

ended-injective : {s t : Simple} → ended s ≡ ended t → s ≡ t
ended-injective e = cc

stopped : {r : Ret} {s t : Simple} → released r s ≡ ended t → ⊥
stopped e = cc

-- `s₁` is `s` with the code `b` fetched and the known values brought up to date.
record Fetched (s s₁ : Simple) (b : ℕ) : Type 0 where
  pc₁ : s₁.pc ≡ s.pc + 1
  sp₁ : s₁.sp ≡ s.sp
  max₁ : s₁.sp_max ≡ s.sp_max
  check₁ : s₁.check ≡ s.check
  glist₁ : s₁.glist ≡ s.glist
  got : get_elem? s.check.ebuf s.pc ≡ some b
  peak : s.sp ≤ s.sp_max
  small : length s.check.ebuf ≤ 0x2c00

module _ (t : Simple) (free : t.glist ≡ []) (low : t.sp_max < 32) where
  module _ (s s₁ s' : Simple) (b : ℕ) (fetched : Fetched s s₁ b) where
    open fetched use {pc₁, sp₁, max₁, check₁, glist₁, got, peak, small}

    Advance-Found :
        (k n p : ℕ)
        → shape (decode b) ≡ plain k n p
        → Advance s₁ s' k n p
        → (names_var (decode b) ≡ false → s'.check.ebuf ≡ s₁.check.ebuf)
        → Found t s'
        → Found t s
    Advance-Found k n p e a quiet f =
        let ebuf₁ : s₁.check.ebuf ≡ s.check.ebuf = ap (λ (c : Check). c.ebuf) check₁ in
        let peak' : s'.sp ≤ s'.sp_max = a.peak (omega arith) in
        let kept₁ : Kept (s.pc + 1) s.check.ebuf s'.check.ebuf =
          Kept-from (s.pc + 1) _ _ _ ebuf₁ (Kept-le (s.pc + 1) s₁.pc _ _ (omega arith) a.kept) in
        let kept : Kept (s.pc + 1) s.check.ebuf t.check.ebuf =
          Kept-trans (s.pc + 1) (s'.pc + 1) _ _ _ (omega (arith, a.pc)) kept₁ f.kept in
        let pc' : s'.pc ≡ s.pc + 1 + k = omega (arith, a.pc) in
        let sp' : s'.sp ≡ s.sp - n + p = omega (arith, a.sp) in
        record {
          route =
              steps (kept.same s.pc (omega arith) ∙ got) e
                (omega (arith, kept.size, a.room, ap length ebuf₁)) (omega (arith, a.enough))
                (omega (arith, f.sp_max)) (subst₂ (Route t.check.ebuf) pc' sp' f.route);
          kept = kept;
          kept_low = λ b' got' lt.
              let same : b ≡ b' = cc in
              let still = quiet (names_var-decode_low b (omega arith)) in
              Kept-from (s.pc + 2) _ _ _ (still ∙ ebuf₁)
                (Kept-le (s.pc + 2) (s'.pc + 1) _ _ (omega (arith, a.pc)) f.kept);
          glist = sym glist₁ ∙ sym a.glist ∙ f.glist;
          sp_max = omega (arith, a.sp_max, f.sp_max);
        }

    Leap-Found : decode b ≡ goto → Leap s₁ s' → Found t s' → Found t s
    Leap-Found e l f =
        let buf = s.check.ebuf in
        let ebuf₁ : s₁.check.ebuf ≡ buf = ap (λ (c : Check). c.ebuf) check₁ in
        let same : s'.check.ebuf ≡ buf = l.ebuf ∙ ebuf₁ in
        let hi = get_or buf (s.pc + 1) 0 in
        let lo = get_or buf (s.pc + 2) 0 in
        let two : s.pc + 1 + 1 ≡ s.pc + 2 = omega arith in
        let dest : target s₁ ≡ hi * 256 + lo =
          ap₂ (λ (e : List ℕ) (p : ℕ). get_or e p 0 * 256 + get_or e (p + 1) 0) ebuf₁ pc₁
          ∙ ap (λ (p : ℕ). hi * 256 + get_or buf p 0) two in
        let room : s.pc + 2 < length buf = omega (arith, l.room, ap length ebuf₁) in
        let g₁ = get_elem?-eq-get_or buf (s.pc + 1) 0 (omega arith) in
        let g₂ = get_elem?-eq-get_or buf (s.pc + 2) 0 room in
        let kept : Kept (s.pc + 3) buf t.check.ebuf =
          elim (le_cases (s.pc + 1) s'.pc (omega (arith, l.forward, l.pc))) [
            | inl far ↦
                Kept-from (s.pc + 3) _ _ _ same
                  (Kept-le (s.pc + 3) (s'.pc + 1) _ _ (omega arith) f.kept)
            | inr near ↦
                let at_hi : get_elem? s'.check.ebuf s'.pc ≡ some hi = rw (same, near) g₁ in
                Kept-from (s.pc + 3) _ _ _ same (
                  Kept-le (s.pc + 3) (s'.pc + 2) _ _ (omega arith)
                    (f.kept_low hi at_hi (omega (arith, l.pc))))
          ] in
        record {
          route =
              leaps (kept.same s.pc (omega arith) ∙ got) e (kept.same (s.pc + 1) (omega arith) ∙ g₁)
                (kept.same (s.pc + 2) (omega arith) ∙ g₂) (omega (arith, l.forward))
                (subst₂ (Route t.check.ebuf) (l.pc ∙ dest) (l.sp ∙ sp₁) f.route);
          kept = Kept-le (s.pc + 1) (s.pc + 3) _ _ (omega arith) kept;
          kept_low = λ b' got' lt. Kept-le (s.pc + 2) (s.pc + 3) _ _ (omega arith) kept;
          glist = sym glist₁ ∙ sym l.glist ∙ f.glist;
          sp_max = omega (arith, l.sp_max, f.sp_max);
        }

    go-Found :
        (x : Shape)
        → shape (decode b) ≡ x
        → Moves s₁ s' x
        → (names_var (decode b) ≡ false → s'.check.ebuf ≡ s₁.check.ebuf)
        → Found t s'
        → Found t s
    go-Found (plain k n p) e move quiet f = Advance-Found k n p e move quiet f
    go-Found jumps e move quiet f = Leap-Found (shape-jumps (decode b) e) move f
    go-Found branches e move quiet f = absurd (move.0 f.glist)
    go-Found ends e move quiet f = absurd move
    go-Found unchecked e move quiet f = absurd move

    -- The depth of the stack stays below its recorded peak, and the buffer keeps its size.
    go-peak : (x : Shape) → Moves s₁ s' x → s'.sp ≤ s'.sp_max
    go-peak (plain k n p) move = move.peak (omega arith)
    go-peak jumps move = omega (arith, move.sp, move.sp_max)
    go-peak branches move = omega arith
    go-peak ends move = absurd move
    go-peak unchecked move = absurd move

    go-size : (x : Shape) → Moves s₁ s' x → length s'.check.ebuf ≡ length s₁.check.ebuf
    go-size (plain k n p) move = move.kept.size
    go-size jumps move = ap length move.ebuf
    go-size branches move = ap length (move.3)
    go-size ends move = absurd move
    go-size unchecked move = absurd move

    end-Found : (x : Shape) → shape (decode b) ≡ x → x ≡ ends → s' ≡ s₁ → s' ≡ t → Found t s
    end-Found x e x-ends same is_t =
        let whole : t.check.ebuf ≡ s.check.ebuf =
          sym (ap (λ (r : Simple). r.check.ebuf) is_t)
          ∙ ap (λ (r : Simple). r.check.ebuf) same
          ∙ ap (λ (c : Check). c.ebuf) check₁ in
        let all = λ (i : ℕ). Kept-from i _ _ _ whole (Kept-refl i t.check.ebuf) in
        let depth = ap (λ (r : Simple). r.sp_max) (sym is_t ∙ same) in
        record {
          route =
              stops (ap (λ (l : List ℕ). get_elem? l s.pc) whole ∙ got)
                (shape-ends (decode b) (e ∙ x-ends));
          kept = all (s.pc + 1);
          kept_low = λ b' got' lt. all (s.pc + 2);
          glist = sym glist₁ ∙ ap (λ (r : Simple). r.glist) (sym same ∙ is_t) ∙ free;
          sp_max = omega arith;
        }

  module _ (cfg : Config) (s s₁ : Simple) (b : ℕ) (fetched : Fetched s s₁ b) where
    round-Found :
        (again : Simple → PathEnd) (r : Round)
        → Effect s₁ (shape (decode b)) r
        → (names_var (decode b) ≡ false → Quiet s₁ r)
        → on_round again r ≡ ended t
        → ((u : Simple)
            → again u ≡ ended t
            → u.sp ≤ u.sp_max
            → length u.check.ebuf ≤ 0x2c00
            → Found t u)
        → Found t s
    unfolding on_round
    round-Found again (go_on u) eff quiet e ih =
        let x = shape (decode b) in
        let size = go-size s s₁ u b fetched x eff in
        let ebuf₁ : s₁.check.ebuf ≡ s.check.ebuf = ap (λ (c : Check). c.ebuf) check₁ in
        go-Found s s₁ u b fetched x refl eff quiet
          (ih u e (go-peak s s₁ u b fetched x eff) (omega (arith, size, ap length ebuf₁, small)))
      where
        open fetched use {check₁, small}
    round-Found again (at_end u) eff quiet e ih =
        end-Found s s₁ u b fetched (shape (decode b)) refl eff.0 eff.1 (ended-injective e)
    round-Found again (release r u) eff quiet e ih = cc
    round-Found again crash eff quiet e ih = cc

    code-Found :
        (again : Simple → PathEnd)
        → on_round again (round cfg (decode b) s₁) ≡ ended t
        → ((u : Simple)
            → again u ≡ ended t
            → u.sp ≤ u.sp_max
            → length u.check.ebuf ≤ 0x2c00
            → Found t u)
        → Found t s
    code-Found again e ih =
        round-Found again (round cfg (decode b) s₁) (round-Effect cfg s₁ in_buf (decode b))
          (round-Quiet cfg s₁ (decode b)) e ih
      where
        in_buf : s₁.pc ≤ length s₁.check.ebuf
        in_buf = omega (
          arith,
          fetched.pc₁,
          lt-length_of_get s.check.ebuf s.pc fetched.got,
          ap (λ (c : Check). length c.ebuf) fetched.check₁,
        )

  module _ (cfg : Config) (shifts : Shifts) (do_div : DivOp → ℕ → ℕ → ℕ) where
    fold-Found :
        (s : Simple) (b : ℕ) (f : Folded) (again : Simple → PathEnd)
        → get_elem? s.check.ebuf s.pc ≡ some b
        → s.sp ≤ s.sp_max
        → length s.check.ebuf ≤ 0x2c00
        → on_round again (after_fold cfg shifts do_div f (decode b) s) ≡ ended t
        → ((u : Simple)
            → again u ≡ ended t
            → u.sp ≤ u.sp_max
            → length u.check.ebuf ≤ 0x2c00
            → Found t u)
        → Found t s
    unfolding after_fold on_round
    fold-Found s b (folded f) again got peak small e ih =
        code-Found cfg s (record s { fold = f; pc = s.pc + 1 }) b
          (record {
            pc₁ = refl;
            sp₁ = refl;
            max₁ = refl;
            check₁ = refl;
            glist₁ = refl;
            got = got;
            peak = peak;
            small = small;
          })
          again e ih
    fold-Found s b by_zero again got peak small e ih = cc
    fold-Found s b wild again got peak small e ih = cc

    -- A path that the check follows to its end, and that leaves no destination to be checked, is a
    -- route of the buffer that is left, within the depth that is recorded.
    pub walk-Found :
        (fuel : ℕ) (s : Simple)
        → s.sp ≤ s.sp_max
        → length s.check.ebuf ≤ 0x2c00
        → walk cfg shifts do_div fuel s ≡ ended t
        → Found t s
    unfolding walk on_code check_round
    walk-Found zero s peak small e = cc
    walk-Found (suc fuel) s peak small e = elim (Option-cases (get_elem? s.check.ebuf s.pc)) [
      | inl out ↦ absurd (stopped (rw out at e))
      | inr (b, got) ↦
          fold-Found s b (fold_step shifts do_div s.check.ebuf (decode b) s.pc s.sp s.fold)
            (walk cfg shifts do_div fuel) got peak small (rw got at e)
            (λ u e' p l. walk-Found fuel u p l e')
    ]
