-- ===== src/Agent/WorldKept.antt =====
-- gtp.c, `gtp_action_x` as a client of its host: what every call of the host keeps, a run keeps.
use kgtp.Base.{
  ℕ, zero, suc, ◌+◌, ◌-◌, ◌*◌, ◌%◌, ◌^◌, Bool, true, false, Option, none, some, List, ltb, ◌==◌,
  if-elim, get_elem?, length, set,
}
use kgtp.Agent.Host.{Host}
use kgtp.Agent.Machine.{
  Machine, Outcome, next, out, code_error_out, error_out, fault, div_fault, or_fault, pop_stack,
  store, push_top, byte_at, fetch, fetch_arg, fetch_const,
}
use kgtp.Agent.Cases.{
  if_sp, or_out, or_error, take_value, set_or_error, take_printed, pop_top, read_or_error, set_run,
  jump, branch,
}

module _ (h : Host) (P : h.World → Type 0) where
  -- The calls that change the world.
  pub record HostKeeps : Type 0 where
    pub reg_read : (w : h.World) (n : ℕ) → P w → P (h.reg_read w n).0
    pub get_val : (w : h.World) (n : ℕ) → P w → P (h.get_val w n).0
    pub set_val : (w : h.World) (n v : ℕ) → P w → P (h.set_val w n v).0
    pub memory_read : (w : h.World) (a n : ℕ) → P w → P (h.memory_read w a n).0
    pub printk : (w : h.World) (a n : ℕ) → P w → P (h.printk w a n).0
    pub collect_var : (w : h.World) (n : ℕ) → P w → P (h.collect_var w n).0

  abbrev pub Kept : Outcome h.World → Type 0
  Kept (next m) = P m.world
  Kept (out m) = P m.world
  Kept (code_error_out m) = P m.world
  Kept (error_out m) = P m.world
  Kept fault = Unit
  Kept (div_fault b) = Unit

  -- A way on from a machine
  abbrev pub On : (Machine h.World → Outcome h.World) → Type 0
  On k = (m : Machine h.World) → P m.world → Kept (k m)

  pub or_fault-Kept :
      (o : Option ℕ) (k : ℕ → Outcome h.World) → ((v : ℕ) → Kept (k v)) → Kept (or_fault o k)
  or_fault-Kept none k f = tt
  or_fault-Kept (some v) k f = f v

  pub pop_stack-Kept :
      (m : Machine h.World) (k : ℕ → Machine h.World → Outcome h.World)
      → ((v : ℕ) → On (k v))
      → P m.world
      → Kept (pop_stack m k)
  pop_stack-Kept m k f p =
      let i = (m.sp + 2 ^ 32 - 1) % 2 ^ 32 in
      or_fault-Kept (get_elem? m.stack i) (λ v. k v (record m { sp = i }))
        (λ v. f v (record m { sp = i }) p)

  pub store-Kept :
      (m : Machine h.World) (i v : ℕ) (k : Machine h.World → Outcome h.World)
      → On k
      → P m.world
      → Kept (store m i v k)
  store-Kept m i v k f p =
      if-elim Kept (ltb i (length m.stack)) (k (record m { stack = set m.stack i v })) fault
        (λ e. f (record m { stack = set m.stack i v }) p) (λ e. tt)

  pub push_top-Kept :
      (m : Machine h.World) (k : Machine h.World → Outcome h.World)
      → On k
      → P m.world
      → Kept (push_top m k)
  push_top-Kept m k f p =
      store-Kept m m.sp m.top (λ m'. k (record m' { sp = (m.sp + 1) % 2 ^ 32 }))
        (λ m' p'. f (record m' { sp = (m.sp + 1) % 2 ^ 32 }) p') p

  pub pop_top-Kept : On (pop_top h)
  pop_top-Kept m p = pop_stack-Kept m (λ a m'. next (record m' { top = a })) (λ a m' p'. p') p

  pub if_sp-Kept : (k : Machine h.World → Outcome h.World) → On k → On (λ m. if_sp h m k)
  if_sp-Kept k f m p = if-elim Kept (ltb 0 m.sp) (k m) (code_error_out m) (λ e. f m p) (λ e. p)

  pub or_out-Kept :
      (r : h.World × Bool) (m : Machine h.World) (k : Machine h.World → Outcome h.World)
      → On k
      → P r.0
      → Kept (or_out h r m k)
  or_out-Kept (w, good) m k f p =
      if-elim Kept good (k (record m { world = w })) (out (record m { world = w }))
        (λ e. f (record m { world = w }) p) (λ e. p)

  pub or_error-Kept :
      (r : h.World × Bool) (m : Machine h.World) (k : Machine h.World → Outcome h.World)
      → On k
      → P r.0
      → Kept (or_error h r m k)
  or_error-Kept (w, good) m k f p =
      if-elim Kept good (k (record m { world = w })) (error_out (record m { world = w }))
        (λ e. f (record m { world = w }) p) (λ e. p)

  pub take_value-Kept :
      (r : h.World × Option ℕ) (m : Machine h.World) (bad good : Machine h.World → Outcome h.World)
      → On bad
      → On good
      → P r.0
      → Kept (take_value h r m bad good)
  take_value-Kept (w, none) m bad good f g p = f (record m { world = w }) p
  take_value-Kept (w, some v) m bad good f g p = g (record m { world = w; top = v }) p

  pub set_or_error-Kept :
      (r : h.World × Bool) (m : Machine h.World) → P r.0 → Kept (set_or_error h r m)
  set_or_error-Kept (w, true) m p = p
  set_or_error-Kept (w, false) m p = p

  pub take_printed-Kept :
      (r : h.World × Option ℕ) (m : Machine h.World) (k : ℕ → Machine h.World → Outcome h.World)
      → ((v : ℕ) → On (k v))
      → P r.0
      → Kept (take_printed h r m k)
  take_printed-Kept (w, none) m k f p = p
  take_printed-Kept (w, some v) m k f p = f v (record m { world = w }) p

  pub read_or_error-Kept :
      (o : Option ℕ) (m : Machine h.World) → P m.world → Kept (read_or_error h o m)
  read_or_error-Kept none m p = p
  read_or_error-Kept (some v) m p = p

  pub set_run-Kept : (o : Option ℕ) (m : Machine h.World) → P m.world → Kept (set_run h o m)
  unfolding set_run
  set_run-Kept none m p = p
  set_run-Kept (some v) m p = p

  module _ (ebuf : List ℕ) where
    pub fetch-Kept :
        (m : Machine h.World) (k : ℕ → Machine h.World → Outcome h.World)
        → ((v : ℕ) → On (k v))
        → P m.world
        → Kept (fetch ebuf m k)
    fetch-Kept m k f p =
        or_fault-Kept (get_elem? ebuf m.pc) (λ b. k b (record m { pc = m.pc + 1 }))
          (λ b. f b (record m { pc = m.pc + 1 }) p)

    pub fetch_arg-Kept :
        (m : Machine h.World) (k : ℕ → Machine h.World → Outcome h.World)
        → ((v : ℕ) → On (k v))
        → P m.world
        → Kept (fetch_arg ebuf m k)
    fetch_arg-Kept m k f p =
        fetch-Kept m (λ hi m₁. fetch ebuf m₁ (λ lo m₂. k (hi * 256 + lo) m₂))
          (λ hi m₁ p₁. fetch-Kept m₁ (λ lo m₂. k (hi * 256 + lo) m₂) (λ lo. f (hi * 256 + lo)) p₁) p

    pub fetch_const-Kept :
        (n : ℕ) (m : Machine h.World) (k : Machine h.World → Outcome h.World)
        → On k
        → P m.world
        → Kept (fetch_const ebuf n m k)
    unfolding fetch_const
    fetch_const-Kept zero m k f p = f m p
    fetch_const-Kept (suc n) m k f p =
        fetch-Kept m (λ b m'. fetch_const ebuf n (record m' { top = (m.top * 256 + b) % 2 ^ 64 }) k)
          (λ b m' p'. fetch_const-Kept n (record m' { top = (m.top * 256 + b) % 2 ^ 64 }) k f p') p

    pub jump-Kept :
        (m : Machine h.World) (k : Machine h.World → Outcome h.World)
        → On k
        → P m.world
        → Kept (jump h ebuf m k)
    jump-Kept m k f p =
        or_fault-Kept (get_elem? ebuf m.pc)
          (λ hi. byte_at ebuf (m.pc + 1) (λ lo. k (record m { pc = hi * 256 + lo })))
          (λ hi.
            or_fault-Kept (get_elem? ebuf (m.pc + 1)) (λ lo. k (record m { pc = hi * 256 + lo }))
              (λ lo. f (record m { pc = hi * 256 + lo }) p))

    pub branch-Kept :
        (m : Machine h.World) (k : Machine h.World → Outcome h.World)
        → On k
        → P m.world
        → Kept (branch h ebuf m k)
    branch-Kept m k f p =
        if-elim Kept (m.top == 0) (k (record m { pc = m.pc + 2 })) (jump h ebuf m k)
          (λ e. f (record m { pc = m.pc + 2 }) p) (λ e. jump-Kept m k f p)
