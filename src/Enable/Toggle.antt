-- ===== src/Enable/Toggle.antt =====
-- gtp.c, the flag `disable` where tracepoints are enabled or disabled again and again.
use kgtp.Base.{
  ℕ, ◌+◌, ◌≡◌, refl, sym, ap, ◌∙◌, Bool, not, List, [], ◌∷◌, ◌==◌, ◌&&◌, if-elim, Bool-cases, inl,
  inr,
}
use kgtp.Hex.{hex2ulongest}
use kgtp.Enable.{
  Tracepoint, is_taken, flip, enable_disable_from, enable_disable, EnableReply, enable_invalid,
  enable_point, enable_at, behind_num, qtenable_qtdisable,
}

flip-flip : (p : Tracepoint) → flip (flip p) ≡ p
flip-flip p = elim (Bool-cases p.disable) [
  | inl e ↦
      ap (λ d. record p { disable = not (not d) }) e ∙ ap (λ d. record p { disable = d }) (sym e)
  | inr e ↦
      ap (λ d. record p { disable = not (not d) }) e ∙ ap (λ d. record p { disable = d }) (sym e)
]

enable_disable_from-twice :
    (own val : ℕ) (first second : Bool) (i : ℕ) (ps : List Tracepoint)
    → (enable_disable_from own val second i (enable_disable_from own val first i ps).0).0 ≡ ps
unfolding enable_disable_from
enable_disable_from-twice own val first second i [] = refl
enable_disable_from-twice own val first second i (p ∷ ps) =
    let rest = enable_disable_from-twice own val first second (i + 1) ps in
    elim (Bool-cases (is_taken own val i p)) [
      | inl e ↦ rw (e, e) (ap (λ l. flip (flip p) ∷ l) rest ∙ ap (λ x. x ∷ ps) (flip-flip p))
      | inr e ↦ rw (e, e) (ap (λ l. p ∷ l) rest)
    ]

-- `gtp_handler_enable_disable` twice with the same number, whether it enables or disables the first
-- time and the second time, leaves every tracepoint with the flag that it had at first.
pub enable_disable-twice :
    (own val : ℕ) (first second : Bool) (ps : List Tracepoint)
    → (enable_disable own val second (enable_disable own val first ps).0).0 ≡ ps
unfolding enable_disable
enable_disable-twice own val first second ps = enable_disable_from-twice own val first second 0 ps

module _ (kernel : Bool → Bool → ℕ → ℕ)
    (works : (is_ret enable : Bool) (addr : ℕ) → kernel is_ret enable addr ≡ 0) where
  enable_at-unnoted :
      (enable : Bool) (num addr : ℕ) (whole : List Tracepoint → List Tracepoint)
      (ps : List Tracepoint)
      → (enable_at kernel enable num addr whole ps).1 ≡ whole ps
  unfolding enable_at
  enable_at-unnoted enable num addr whole [] = refl
  enable_at-unnoted enable num addr whole (p ∷ ps) =
      if-elim (λ (r : EnableReply × List Tracepoint). r.1 ≡ whole (p ∷ ps))
        (p.num == num && p.addr == addr) (enable_point kernel enable p ps whole) _
        (λ e.
          if-elim (λ (r : EnableReply × List Tracepoint). r.1 ≡ whole (p ∷ ps)) (not p.is_kprobe)
            (enable_invalid, whole (p ∷ ps)) _ (λ f. refl)
            (λ f. rw (works p.is_ret enable p.addr) refl))
        (λ e. enable_at-unnoted enable num addr (λ l. whole (p ∷ l)) ps)

  behind_num-unnoted :
      (enable : Bool) (r : List ℕ × ℕ) (ps : List Tracepoint)
      → (behind_num kernel enable r ps).1 ≡ ps
  behind_num-unnoted enable ([], num) ps = refl
  behind_num-unnoted enable (c ∷ rest, num) ps =
      if-elim (λ (r : EnableReply × List Tracepoint). r.1 ≡ ps) (c == 58)
        (enable_at kernel enable num (hex2ulongest rest).1 (λ l. l) ps) (enable_invalid, ps)
        (λ e. enable_at-unnoted enable num (hex2ulongest rest).1 (λ l. l) ps) (λ e. refl)

  -- Where the kernel enables and disables what it is told to, `gtp_gdbrsp_qtenable_qtdisable` changes the
  -- flag of no tracepoint, whatever the text is.
  pub qtenable_qtdisable-unnoted :
      (pkg : List ℕ) (enable : Bool) (ps : List Tracepoint)
      → (qtenable_qtdisable kernel pkg enable ps).1 ≡ ps
  unfolding qtenable_qtdisable
  qtenable_qtdisable-unnoted pkg enable ps = behind_num-unnoted enable (hex2ulongest pkg) ps
