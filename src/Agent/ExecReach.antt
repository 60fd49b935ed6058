-- ===== src/Agent/ExecReach.antt =====
-- gtp.c, `gtp_action_x`: the calls that a `case` makes, each with the place that it reaches.
use kgtp.Base.{
  ℕ, suc, ◌+◌, ◌-◌, ◌≤◌, ◌<◌, ◌≡◌, Bool, true, false, Option, none, some, List, arith, length,
  get_elem?-total, get_elem?, ◌%◌, ◌^◌,
}
use kgtp.Agent.Host.{Host}
use kgtp.Agent.Machine.{Machine, Outcome, next, pop_stack}
use kgtp.Agent.Cases.{
  pop_top, or_out, take_value, or_error, read_or_error, set_or_error, take_printed,
}
use kgtp.Agent.ExecShape.{Reaches}

-- The cell under `sp` is there.
pub top_cell :
    (stack : List ℕ) (sp : ℕ)
    → length stack ≡ 32
    → 0 < sp
    → sp ≤ 32
    → (a : ℕ) × (get_elem? stack ((sp + 2 ^ 32 - 1) % 2 ^ 32) ≡ some a)
top_cell stack sp wide lo hi = get_elem?-total stack ((sp + 2 ^ 32 - 1) % 2 ^ 32) (omega arith)

module _ (h : Host) where
  open h use {World}

  module _ (pc sp : ℕ) where
    pub pop_next-Reaches :
        (m : Machine World) (f : ℕ → ℕ)
        → length m.stack ≡ 32
        → m.pc ≡ pc
        → m.sp ≡ suc sp
        → sp < 32
        → Reaches pc sp (pop_stack m (λ a m'. next (record m' { top = f a })))
    pop_next-Reaches m f wide p q lt =
        let (a, got) = top_cell m.stack m.sp wide (omega arith) (omega arith) in
        rw got (omega arith)

    pub or_out-Reaches :
        (r : World × Bool) (m : Machine World)
        → length m.stack ≡ 32
        → m.pc ≡ pc
        → m.sp ≡ suc sp
        → sp < 32
        → Reaches pc sp (or_out h r m (pop_top h))
    or_out-Reaches (w, true) m wide p q lt =
        pop_next-Reaches (record m { world = w }) (λ a. a) wide p q lt
    or_out-Reaches (w, false) m wide p q lt = tt

    pub quick-Reaches :
        (r : World × Bool) (m : Machine World) (f : ℕ → ℕ)
        → length m.stack ≡ 32
        → f m.pc ≡ pc
        → m.sp ≡ sp
        → Reaches pc sp (or_out h r m (λ m'. next (record m' { pc = f m'.pc })))
    quick-Reaches (w, true) m f wide p q = (p, q, wide)
    quick-Reaches (w, false) m f wide p q = tt

    pub or_error-Reaches :
        (r : World × Bool) (m : Machine World)
        → length m.stack ≡ 32
        → m.pc ≡ pc
        → m.sp ≡ sp
        → Reaches pc sp (or_error h r m next)
    or_error-Reaches (w, true) m wide p q = (p, q, wide)
    or_error-Reaches (w, false) m wide p q = tt

    pub set_or_error-Reaches :
        (r : World × Bool) (m : Machine World)
        → length m.stack ≡ 32
        → m.pc ≡ pc
        → m.sp ≡ sp
        → Reaches pc sp (set_or_error h r m)
    set_or_error-Reaches (w, true) m wide p q = (p, q, wide)
    set_or_error-Reaches (w, false) m wide p q = tt

    pub take_value-Reaches :
        (r : World × Option ℕ) (m : Machine World) (bad : Machine World → Outcome World)
        → ((m' : Machine World) → Reaches pc sp (bad m'))
        → length m.stack ≡ 32
        → m.pc ≡ pc
        → m.sp ≡ sp
        → Reaches pc sp (take_value h r m bad next)
    take_value-Reaches (w, none) m bad b wide p q = b _
    take_value-Reaches (w, some v) m bad b wide p q = (p, q, wide)

    pub take_printed-Reaches :
        (r : World × Option ℕ) (m : Machine World)
        → length m.stack ≡ 32
        → m.pc ≡ pc
        → m.sp ≡ sp
        → Reaches pc sp (take_printed h r m (λ v m₂. or_error h (h.printk m₂.world v 0) m₂ next))
    take_printed-Reaches (w, none) m wide p q = tt
    take_printed-Reaches (w, some v) m wide p q =
        or_error-Reaches (h.printk w v 0) (record m { world = w }) wide p q

    pub read_or_error-Reaches :
        (r : Option ℕ) (m : Machine World)
        → length m.stack ≡ 32
        → m.pc ≡ pc
        → m.sp ≡ sp
        → Reaches pc sp (read_or_error h r m)
    read_or_error-Reaches none m wide p q = tt
    read_or_error-Reaches (some v) m wide p q = (p, q, wide)
