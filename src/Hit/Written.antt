-- ===== src/Hit/Written.antt =====
-- gtp.c and gtp_rb.c, the writer against the reader: an entry that a hit has collected, and
-- `gtp_rb_walk` from where `w` was.
use kgtp.Base.{
  ℕ, zero, suc, ◌+◌, ◌*◌, ◌/◌, ◌%◌, ◌^◌, ◌≤◌, ◌<◌, ◌≡◌, ◌≢◌, refl, sym, ◌∙◌, ap, arith, Bool, true,
  false, Option, none, some, List, [], ◌∷◌, length, get_or, ◌⊎◌, inl, inr,
}
use mathlib.Core.Path.{subst}
use kgtp.Ring.Bytes.{Memory, load, store, put_byte, load-store_apart, load-store_same, limit}
use kgtp.Ring.Pages.{Rb, head, page_end, frame_align, get_next, fid_mem}
use kgtp.Ring.Write.{alloc}
use kgtp.Ring.Inv.{IsRing}
use kgtp.Ring.Inside.{
  Inside, Inside-refl, Inside-store, load-Inside, Granted, GrantsAll, alloc-GrantsAll,
}
use kgtp.Ring.Append.{Placed, PlacedIf, alloc-PlacedIf, Placed-Trail}
use kgtp.Ring.Walk.{WalkArgs, at_end, rb_walk}
use kgtp.Ring.Trail.{FrameEntry, memory, writer, rb_walk-reaches}
use kgtp.Hit.{Hit, Outside, Site}
use kgtp.Hit.Frame.{on_alloc, put_bytes, with_mem, put_chunk, take_chunk, collect_chunk}
use kgtp.Hit.Ok.{Behaves, Inside-put_bytes}

pub put_bytes-at :
    (m : Memory) (a : ℕ) (bs : List ℕ) (i : ℕ)
    → i < length bs
    → put_bytes m a bs (a + i) ≡ get_or bs i 0 % 256
unfolding put_bytes
put_bytes-at m a [] i lt = absurd (omega arith)
put_bytes-at m a (b ∷ bs) zero lt = ground arith
put_bytes-at m a (b ∷ bs) (suc i) lt =
    let next : put_bytes m (a + 1) bs (a + 1 + i) ≡ get_or bs i 0 % 256 =
      put_bytes-at m (a + 1) bs i (omega arith) in
    let same : a + suc i ≡ a + 1 + i = omega arith in
    ap (put_byte (put_bytes m (a + 1) bs) a (b % 256)) same ∙ ground (arith, next)

-- The walk over the entries of the frame `id` up to `last`
abbrev pub walk_args : ℕ → ℕ → WalkArgs
walk_args last id = record {
  check_end = true;
  pass_page = true;
  pass_entry = false;
  check_id = true;
  check_type = false;
  count_steps = false;
  last = last;
  id = id;
  type_fid = 0;
  step_max = 0;
}

-- A walk from `w` over what is new in `m` comes to `w'`.
abbrev pub Walked : ℕ → Memory → ℕ → ℕ → ℕ → Type 0
Walked regs_size m id w w' =
    (k : ℕ) × (k ≤ 3) × (rb_walk regs_size m (walk_args w' id) (suc k) w ≡ some (at_end, w'))

-- What is before the bytes of memory
abbrev pub head_of : Memory → ℕ → ℕ → ℕ → Memory
head_of m p addr size = store 8 (store 8 (store 4 m p fid_mem) (p + 4) addr) (p + 12) size

module _ (IsPage : ℕ → Type 0) (regs_size : ℕ) where
  -- An entry at `p` that has been given out behind `w` and is written
  pub entry-Walked :
      (rb₀ rb : Rb) (id n p : ℕ) (m : Memory)
      → IsRing IsPage rb₀
      → Granted IsPage rb₀ n p rb
      → Placed rb₀.w id p rb.mem
      → 4 ≤ n
      → Inside p (p + n) rb.mem m
      → FrameEntry regs_size m (walk_args (p + n) id) p n
      → Walked regs_size m id rb₀.w (p + n)
  entry-Walked rb₀ rb id n p m i g placed some_bytes inside e =
      let (k, few, t) =
        Placed-Trail regs_size (walk_args (p + n) id) rb₀.w n p rb.mem m inside i.w_low i.w_high
          some_bytes g.high g.low refl e placed in
      (
        k,
        few,
        rb_walk-reaches regs_size m (walk_args (p + n) id) refl refl refl refl refl rb₀.w
            (page_end (p + n)) (p + n) k at_end (writer refl) t,
      )

  module _ (o : Outside) (behaves : Behaves o) (s : Site) where
    -- What the read of memory finds: the entry at `p` is given out and has its head.
    abbrev pub reading : ℕ → ℕ → ℕ → Rb → Hit → List ℕ × Bool
    reading addr size p rb hit =
        o.read_memory s.task_read (with_mem (head_of rb.mem p addr size) (record hit { rb = rb }))
          addr size

    -- What a hit has collected at `at`, where `given` is what `gtp_rb_alloc` has returned: the bytes of
    -- the read, which has succeeded, and the walk over them.
    pub record ChunkAt (addr size w id : ℕ) (given : Option ℕ × Rb) (before hit : Hit)
        : Type 0 where
      pub at : ℕ
      pub at_is : given.0 ≡ some at
      pub fid_is : load 4 hit.rb.mem at ≡ fid_mem
      pub addr_is : load 8 hit.rb.mem (at + 4) ≡ addr
      pub size_is : load 8 hit.rb.mem (at + 12) ≡ size
      pub read_is : (reading addr size at given.1 before).1 ≡ true
      pub bytes_are :
          (i : ℕ)
          → i < length (reading addr size at given.1 before).0
          → hit.rb.mem (at + 20 + i) ≡ get_or (reading addr size at given.1 before).0 i 0 % 256
      pub walked : Walked regs_size hit.rb.mem id w hit.rb.w

    -- A round that fails: there was no room for the entry, or the read of memory has failed.
    abbrev pub FailsFor : ℕ → ℕ → Option ℕ × Rb → Hit → Type 0
    FailsFor addr size given before =
        (given.0 ≡ none)
        ⊎ ((p : ℕ) × (given.0 ≡ some p) × ((reading addr size p given.1 before).1 ≡ false))

    abbrev pub Collects : ℕ → ℕ → ℕ → ℕ → Option ℕ × Rb → Hit → Hit × Bool → Type 0
    Collects addr size w id given before (hit, false) = FailsFor addr size given before
    Collects addr size w id given before (hit, true) = ChunkAt addr size w id given before hit

    -- The entry that is to be written
    record ToWrite (rb₀ : Rb) (id n p : ℕ) (hit : Hit) : Type 0 where
      was : IsRing IsPage rb₀
      given : Granted IsPage rb₀ n p hit.rb
      placed : Placed rb₀.w id p hit.rb.mem

    head_of-fid : (m : Memory) (p addr size : ℕ) → load 4 (head_of m p addr size) p ≡ fid_mem
    unfolding limit
    head_of-fid m p addr size =
        load-store_apart 4 8 _ p (p + 12) size (omega arith)
        ∙ load-store_apart 4 8 _ p (p + 4) addr (omega arith)
        ∙ load-store_same 4 m p fid_mem (omega arith)

    head_of-addr :
        (m : Memory) (p addr size : ℕ)
        → addr < 2 ^ 64
        → load 8 (head_of m p addr size) (p + 4) ≡ addr
    unfolding limit
    head_of-addr m p addr size wide =
        load-store_apart 8 8 _ (p + 4) (p + 12) size (omega arith)
        ∙ load-store_same 8 (store 4 m p fid_mem) (p + 4) addr (omega (arith, wide))

    head_of-size :
        (m : Memory) (p addr size : ℕ)
        → size < 2 ^ 64
        → load 8 (head_of m p addr size) (p + 12) ≡ size
    unfolding limit
    head_of-size m p addr size wide =
        load-store_same 8 (store 8 (store 4 m p fid_mem) (p + 4) addr) (p + 12) size
          (omega (arith, wide))

    taken-Collects :
        (rb₀ : Rb) (id n p addr size : ℕ) (r : List ℕ × Bool) (rb : Rb) (before : Hit)
        → reading addr size p rb before ≡ r
        → n ≡ (20 + size + 3) / 4 * 4
        → size ≤ 4096
        → addr < 2 ^ 64
        → length r.0 ≤ size
        → ToWrite rb₀ id n p (record before { rb = rb })
        → Collects addr size rb₀.w id
            (some p, rb)
            before
            (take_chunk p r (with_mem (head_of rb.mem p addr size) (record before { rb = rb })))
    taken-Collects rb₀ id n p addr size (bytes, false) rb before is n_is small wide few t =
        inr (p, refl, ap (λ (x : List ℕ × Bool). x.1) is)
    taken-Collects rb₀ id n p addr size (bytes, true) rb before is n_is small wide few t =
        let m = rb.mem in
        let m₁ = head_of m p addr size in
        let m₂ = put_bytes m₁ (p + 20) bytes in
        let tail : Inside (p + 20) (p + n) m₁ m₂ =
          Inside-put_bytes (p + 20) (p + n) m₁ m₁ (p + 20) bytes (omega arith)
            (omega (arith, n_is, few)) (Inside-refl (p + 20) (p + n) m₁) in
        let fid : load 4 m₂ p ≡ fid_mem =
          load-Inside (p + 20) (p + n) 4 m₁ m₂ p (omega arith) tail ∙ head_of-fid m p addr size in
        let sized : load 8 m₂ (p + 12) ≡ size =
          load-Inside (p + 20) (p + n) 8 m₁ m₂ (p + 12) (omega arith) tail
          ∙ head_of-size m p addr size (omega (arith, small)) in
        let whole : Inside p (p + n) m m₂ =
          Inside-put_bytes p (p + n) m m₁ (p + 20) bytes (omega arith) (omega (arith, n_is, few)) (
            Inside-store p (p + n) 8 m _ (p + 12) size (omega arith) (omega (arith, n_is)) (
              Inside-store p (p + n) 8 m _ (p + 4) addr (omega arith) (omega (arith, n_is)) (
                Inside-store p (p + n) 4 m m p fid_mem (omega arith) (omega (arith, n_is))
                  (Inside-refl p (p + n) m)))) in
        let e : FrameEntry regs_size m₂ (walk_args (p + n) id) p n =
          subst (FrameEntry regs_size m₂ (walk_args (p + n) id) p) (sym n_is)
            (memory size fid sized small) in
        record {
          at = p;
          at_is = refl;
          fid_is = fid;
          addr_is =
              load-Inside (p + 20) (p + n) 8 m₁ m₂ (p + 4) (omega arith) tail
              ∙ head_of-addr m p addr size wide;
          size_is = sized;
          read_is = ap (λ (x : List ℕ × Bool). x.1) is;
          bytes_are =
              subst (λ (l : List ℕ). (i : ℕ) → i < length l → m₂ (p + 20 + i) ≡ get_or l i 0 % 256)
                (ap (λ (x : List ℕ × Bool). x.0) (sym is)) (put_bytes-at m₁ (p + 20) bytes);
          walked =
              subst (Walked regs_size m₂ id rb₀.w) (sym t.given.end) (
                entry-Walked rb₀ rb id n p m₂ t.was t.given t.placed (omega (arith, n_is)) whole e);
        }

    given-Collects :
        (rb₀ : Rb) (id n addr size : ℕ) (r : Option ℕ × Rb) (hit : Hit)
        → n ≡ (20 + size + 3) / 4 * 4
        → size ≤ 4096
        → addr < 2 ^ 64
        → IsRing IsPage rb₀
        → GrantsAll IsPage rb₀ n r
        → PlacedIf rb₀.w id r
        → Collects addr size rb₀.w id r hit (on_alloc r hit (put_chunk o s addr size))
    given-Collects rb₀ id n addr size (none, rb) hit n_is small wide i g placed = inl refl
    given-Collects rb₀ id n addr size (some p, rb) hit n_is small wide i g placed =
        let hit₂ = with_mem (head_of rb.mem p addr size) (record hit { rb = rb }) in
        taken-Collects rb₀ id n p addr size (reading addr size p rb hit) rb hit refl n_is small wide
          (behaves.read_fits s.task_read hit₂ addr size)
          (record { was = i; given = g; placed = placed })

    -- A round of `gtp_action_memory_read`, in a frame with an id, on a ring buffer in order of more than
    -- one page. It fails only where `gtp_rb_alloc` gives nothing out or the read of memory fails. Else,
    -- where `gtp_rb_alloc` has given it out, there is an entry with the address and the size that were
    -- asked for and every byte that the read of memory has returned; and `gtp_rb_walk`, from where `w`
    -- was, comes over it to `w` within four rounds, whether or not the entry is in a new page.
    pub collect_chunk-Collects :
        (addr size : ℕ) (hit : Hit)
        → size ≤ 4096
        → addr < 2 ^ 64
        → hit.id ≢ 0
        → hit.id < 2 ^ 64
        → IsRing IsPage hit.rb
        → head (get_next hit.rb.mem hit.rb.w) ≢ head hit.rb.w
        → Collects addr size hit.rb.w hit.id
            (alloc o.circular (20 + size) hit.id hit.rb)
            hit
            (collect_chunk o s addr size hit)
    unfolding collect_chunk
    collect_chunk-Collects addr size hit small wide some_id id_wide i apart =
        given-Collects hit.rb hit.id (frame_align (20 + size)) addr size
          (alloc o.circular (20 + size) hit.id hit.rb) hit (omega (arith, small)) small wide i
          (alloc-GrantsAll IsPage o.circular (20 + size) hit.id hit.rb i)
          (alloc-PlacedIf IsPage o.circular (20 + size) hit.id hit.rb some_id id_wide i apart)
