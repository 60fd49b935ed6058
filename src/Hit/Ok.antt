-- ===== src/Hit/Ok.antt =====
-- gtp.c, what every part of a hit keeps: the ring buffer is in order, and its lock is held while
-- `gts->next` is set, and only then.
use kgtp.Base.{
  ℕ, zero, suc, ◌+◌, ◌≤◌, ◌≡◌, refl, ◌∙◌, arith, Bool, true, false, Option, none, some, List, [],
  ◌∷◌, length, if-elim, get_elem?, set, ltb,
}
use kgtp.Ring.Bytes.{Memory}
use kgtp.Ring.Inside.{Inside}
use kgtp.Hit.{Hit, Outside, Var, Storage, special, per_cpu, plain}
use kgtp.Hit.Vars.{
  wild, known_value, cpu_of, get_storage, get_var, put, agent_get_val, set_storage, set_var,
  agent_set_val,
}
use kgtp.Hit.Frame.{put_bytes, copy}

pub Inside-put_bytes :
    (lo hi : ℕ) (m m' : Memory) (a : ℕ) (bs : List ℕ)
    → lo ≤ a
    → a + length bs ≤ hi
    → Inside lo hi m m'
    → Inside lo hi m (put_bytes m' a bs)
unfolding put_bytes
Inside-put_bytes lo hi m m' a [] low high f x out = f x out
Inside-put_bytes lo hi m m' a (b ∷ bs) low high f x out = ground (
  arith,
  out,
  low,
  high,
  Inside-put_bytes lo hi m m' (a + 1) bs (omega arith) (omega arith) f x out,
)

pub Inside-copy :
    (lo hi n : ℕ) (from : Memory) (i : ℕ) (m m' : Memory) (a : ℕ)
    → lo ≤ a
    → a + n ≤ hi
    → Inside lo hi m m'
    → Inside lo hi m (copy n from i m' a)
unfolding copy
Inside-copy lo hi zero from i m m' a low high f x out = f x out
Inside-copy lo hi (suc n) from i m m' a low high f x out = ground (
  arith,
  out,
  low,
  high,
  Inside-copy lo hi n from (i + 1) m m' (a + 1) (omega arith) (omega arith) f x out,
)

-- What is relied on outside: a read writes at most the bytes that are asked for, the program
-- counter lies in the registers, which fit in a page, and the hooks of the special variables leave
-- the frame alone.
pub record Behaves (o : Outside) : Type 0 where
  pub read_fits :
      (task_read : Bool) (hit : Hit) (a n : ℕ) → length (o.read_memory task_read hit a n).0 ≤ n
  pub pc_fits : o.reg_offset 16 + 8 ≤ o.regs_size
  pub regs_fit : o.regs_size ≤ 4064
  pub get_rb : (i : ℕ) (hit : Hit) → (o.get_hook i hit).0.rb ≡ hit.rb
  pub get_next : (i : ℕ) (hit : Hit) → (o.get_hook i hit).0.next ≡ hit.next
  pub get_locked : (i : ℕ) (hit : Hit) → (o.get_hook i hit).0.locked ≡ hit.locked
  pub set_rb : (i v : ℕ) (hit : Hit) → (o.set_hook i v hit).0.rb ≡ hit.rb
  pub set_next : (i v : ℕ) (hit : Hit) → (o.set_hook i v hit).0.next ≡ hit.next
  pub set_locked : (i v : ℕ) (hit : Hit) → (o.set_hook i v hit).0.locked ≡ hit.locked

-- The two hits have the same frame.
pub record SameFrame (hit hit' : Hit) : Type 0 where
  pub same_rb : hit'.rb ≡ hit.rb
  pub same_next : hit'.next ≡ hit.next
  pub same_locked : hit'.locked ≡ hit.locked

pub SameFrame-refl : (hit : Hit) → SameFrame hit hit
SameFrame-refl hit = record { same_rb = refl; same_next = refl; same_locked = refl }

pub SameFrame-trans : (a b c : Hit) → SameFrame a b → SameFrame b c → SameFrame a c
SameFrame-trans a b c f g = record {
  same_rb = g.same_rb ∙ f.same_rb;
  same_next = g.same_next ∙ f.same_next;
  same_locked = g.same_locked ∙ f.same_locked;
}

module _ (o : Outside) (behaves : Behaves o) where
  known-SameFrame : (v : Option ℕ) (hit : Hit) → SameFrame hit (known_value v hit).0
  known-SameFrame none hit = record { same_rb = refl; same_next = refl; same_locked = refl }
  known-SameFrame (some v) hit = SameFrame-refl hit

  get_storage-SameFrame : (s : Storage) (hit : Hit) → SameFrame hit (get_storage o s hit).0
  get_storage-SameFrame (special i) hit = record {
    same_rb = behaves.get_rb i hit;
    same_next = behaves.get_next i hit;
    same_locked = behaves.get_locked i hit;
  }
  get_storage-SameFrame (per_cpu bound values) hit =
      known-SameFrame (get_elem? values (cpu_of o.cpu bound)) hit
  get_storage-SameFrame (plain v) hit = SameFrame-refl hit

  get_var-SameFrame : (v : Option Var) (hit : Hit) → SameFrame hit (get_var o v hit).0
  get_var-SameFrame none hit = record { same_rb = refl; same_next = refl; same_locked = refl }
  get_var-SameFrame (some var) hit = get_storage-SameFrame var.storage hit

  pub agent_get_val-SameFrame : (num : ℕ) (hit : Hit) → SameFrame hit (agent_get_val o num hit).0
  unfolding agent_get_val
  agent_get_val-SameFrame num hit = get_var-SameFrame (get_elem? hit.vars num) hit

  set_storage-SameFrame :
      (num : ℕ) (var : Var) (s : Storage) (val : ℕ) (hit : Hit)
      → SameFrame hit (set_storage o num var s val hit).0
  set_storage-SameFrame num var (special i) val hit = record {
    same_rb = behaves.set_rb i val hit;
    same_next = behaves.set_next i val hit;
    same_locked = behaves.set_locked i val hit;
  }
  set_storage-SameFrame num var (per_cpu bound values) val hit =
      let i = cpu_of o.cpu bound in
      if-elim (λ (r : Hit × Bool). SameFrame hit r.0) (ltb i (length values))
        (put o num var (per_cpu bound (set values i val)) hit, true) (wild hit, false)
        (λ e. record { same_rb = refl; same_next = refl; same_locked = refl })
        (λ e. record { same_rb = refl; same_next = refl; same_locked = refl })
  set_storage-SameFrame num var (plain v) val hit = record {
    same_rb = refl;
    same_next = refl;
    same_locked = refl;
  }

  set_var-SameFrame :
      (num : ℕ) (v : Option Var) (val : ℕ) (hit : Hit) → SameFrame hit (set_var o num v val hit).0
  set_var-SameFrame num none val hit = record {
    same_rb = refl;
    same_next = refl;
    same_locked = refl;
  }
  set_var-SameFrame num (some var) val hit = set_storage-SameFrame num var var.storage val hit

  pub agent_set_val-SameFrame :
      (num val : ℕ) (hit : Hit) → SameFrame hit (agent_set_val o num val hit).0
  unfolding agent_set_val
  agent_set_val-SameFrame num val hit = set_var-SameFrame num (get_elem? hit.vars num) val hit
