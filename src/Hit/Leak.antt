-- ===== src/Hit/Leak.antt =====
-- gtp.c, `gtp_handler`: the return behind a condition that is 0.
use kgtp.Base.{ℕ, ◌≡◌, sym, ap, ◌∙◌, ◌⊎◌, inl, inr, true, false, some, if-elim, if◌then◌else◌}
use mathlib.Core.Path.{subst}
use kgtp.Agent.Op.{DivOp}
use kgtp.Agent.Word.{Shifts}
use kgtp.Agent.Exec.{Code}
use kgtp.Hit.{Outside, Site}
use kgtp.Hit.Ok.{Behaves}
use kgtp.Hit.EntryOk.{HitOk}
use kgtp.Hit.Release.{ExpOk, run_exp-ExpOk}
use kgtp.Ring.Inv.{IsRing}
use kgtp.Hit.Handler.{
  Point, Task, Step, Run, is_quiet, run_exp, set_names, check_cond, after_cond, get_task_regs,
  with_regs, choose_regs, handler, stop_stepping,
}

-- How the registers of a hit are chosen where its task has none of its own: for a uprobe, and for a
-- tracepoint of the kernel that is not for the current task.
abbrev pub PlainSite : Outside → Point → Site → Step → Site → Type 0
PlainSite o tp s st site =
    let s' : Site = record s { regs = (stop_stepping o s st).1 } in
    ((s.is_uprobe ≡ true) × (site ≡ s'))
    ⊎ ((s.is_uprobe ≡ false) × (tp.current_task ≡ false) × (site ≡ record s' { task_read = false }))

module _ (o : Outside) (shifts : Shifts) (do_div : DivOp → ℕ → ℕ → ℕ) (fuel unset : ℕ) (tp : Point)
    (task : Task) where
  abbrev Refuses : Site → Run → Code → Run → Type 0
  Refuses site r c r' =
      run_exp o shifts do_div fuel tp site c (some unset) (set_names o shifts do_div fuel tp r)
      ≡ some (r', some 0, true)

  with_regs-refused :
      (site : Site) (r r' : Run) (c : Code)
      → is_quiet o shifts do_div fuel tp task r ≡ false
      → tp.cond ≡ some c
      → Refuses site r c r'
      → with_regs o shifts do_div fuel tp unset task site r ≡ some r'
  unfolding with_regs
  with_regs-refused site r r' c loud cond ran =
      let refused =
        ap
          (λ x.
            check_cond o shifts do_div fuel tp unset site x (set_names o shifts do_div fuel tp r))
          cond
        ∙ ap (after_cond o shifts do_div fuel tp site) ran in
      ap
        (λ b.
          if b
          then some r
          else check_cond o shifts do_div fuel tp unset site tp.cond
              (set_names o shifts do_div fuel tp r))
        loud
      ∙ refused

  handler-refused :
      (s site : Site) (st : Step) (r r' : Run) (c : Code)
      → PlainSite o tp s st site
      → is_quiet o shifts do_div fuel tp task r ≡ false
      → tp.cond ≡ some c
      → Refuses site r c r'
      → (handler o shifts do_div fuel tp unset task s st r).0 ≡ some r'
  unfolding handler choose_regs
  handler-refused s site st r r' c (inl (uprobe, is)) loud cond ran =
      let s' : Site = record s { regs = (stop_stepping o s st).1 } in
      if-elim (λ x. x ≡ some r') s.is_uprobe (with_regs o shifts do_div fuel tp unset task s' r) _
        (λ e. with_regs-refused s' r r' c loud cond (subst (λ x. Refuses x r c r') is ran))
        (λ e. absurd cc)
  handler-refused s site st r r' c (inr (kernel, plain, is)) loud cond ran =
      let s' : Site = record s { regs = (stop_stepping o s st).1; task_read = false } in
      if-elim (λ x. x ≡ some r') s.is_uprobe _
        (if tp.current_task
          then get_task_regs o shifts do_div fuel tp unset task s' tp.get_regs r
          else with_regs o shifts do_div fuel tp unset task s' r)
        (λ e. absurd cc)
        (λ e.
          if-elim (λ x. x ≡ some r') tp.current_task _
            (with_regs o shifts do_div fuel tp unset task s' r) (λ f. absurd cc)
            (λ f. with_regs-refused s' r r' c loud cond (subst (λ x. Refuses x r c r') is ran)))

-- `gtp_handler` for a hit that is to be traced, without registers of the task, with the ring buffer in
-- order and its lock free, for any expression as its condition: where the condition has begun a frame
-- and its value is 0, the handler returns with the lock held, which the head of the frame has taken.
-- The return behind a condition that is 0 does not give it back.
pub handler-keeps_lock :
    (IsPage : ℕ → Type 0) (o : Outside) (shifts : Shifts) (do_div : DivOp → ℕ → ℕ → ℕ)
    → (fuel unset : ℕ) (tp : Point) (task : Task) (s site : Site) (st : Step) (r r' : Run)
      (c : Code)
    → Behaves o
    → IsRing IsPage r.hit.rb
    → r.hit.locked ≡ false
    → r.hit.next ≡ false
    → PlainSite o tp s st site
    → is_quiet o shifts do_div fuel tp task r ≡ false
    → tp.cond ≡ some c
    → run_exp o shifts do_div fuel tp site c (some unset) (set_names o shifts do_div fuel tp r)
      ≡ some (r', some 0, true)
    → r'.hit.next ≡ true
    → ((handler o shifts do_div fuel tp unset task s st r).0 ≡ some r') × (r'.hit.locked ≡ true)
handler-keeps_lock IsPage o shifts do_div fuel unset tp task s site st r r' c behaves ring free
      no_frame plain loud cond ran begun =
    let r₁ = set_names o shifts do_div fuel tp r in
    let named : HitOk IsPage r₁.hit =
      if-elim (λ (x : Run). HitOk IsPage x.hit) tp.have_printk _ r
        (λ e. record { ring = ring; held = free ∙ sym no_frame })
        (λ e. record { ring = ring; held = free ∙ sym no_frame }) in
    let ok : HitOk IsPage r'.hit =
      subst (ExpOk IsPage o behaves shifts do_div) ran
        (run_exp-ExpOk IsPage o behaves shifts do_div fuel tp site c (some unset) r₁ named) in
    (
      handler-refused o shifts do_div fuel unset tp task s site st r r' c plain loud cond ran,
      ok.held ∙ begun,
    )
