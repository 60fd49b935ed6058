-- ===== src/Hit/EntryOk.antt =====
-- gtp.c, an entry of a trace frame between its allocation and its last byte.
use kgtp.Base.{
  ℕ, ◌+◌, ◌≤◌, ◌≡◌, sym, ◌∙◌, arith, Bool, true, false, Option, none, some, List, length,
}
use mathlib.Core.Path.{subst}
use kgtp.Ring.Bytes.{Memory, store}
use kgtp.Ring.Pages.{Rb, frame_align, head}
use kgtp.Ring.Write.{alloc}
use kgtp.Ring.Inv.{IsRing}
use kgtp.Ring.Inside.{
  Inside, Inside-refl, Inside-store, Granted, GrantsAll, alloc-GrantsAll, fill-IsRing,
  release-IsRing,
}
use kgtp.Hit.{Hit}
use kgtp.Hit.Frame.{on_alloc, and_then, put_bytes, with_mem, put_value, take_chunk, chunk_size}
use kgtp.Hit.Ok.{SameFrame, Inside-put_bytes}

module _ (IsPage : ℕ → Type 0) where
  -- Between two parts of a hit.
  pub record HitOk (hit : Hit) : Type 0 where
    pub ring : IsRing IsPage hit.rb
    pub held : hit.locked ≡ hit.next

  abbrev pub ResultOk : Hit × Bool → Type 0
  ResultOk (hit, good) = HitOk hit

  -- The entry that has been given out at `p`, with the frame as it was before it.
  pub record EntryOk (rb₀ : Rb) (n p : ℕ) (hit : Hit) : Type 0 where
    pub was : IsRing IsPage rb₀
    pub entry : Granted IsPage rb₀ n p hit.rb
    pub held : hit.locked ≡ hit.next

  pub EntryOk-HitOk : (rb₀ : Rb) (n p : ℕ) (hit : Hit) → EntryOk rb₀ n p hit → HitOk hit
  EntryOk-HitOk rb₀ n p hit e = record { ring = e.entry.ring; held = e.held }

  pub given-ResultOk :
      (rb₀ : Rb) (n : ℕ) (r : Option ℕ × Rb) (hit : Hit) (k : ℕ → Hit → Hit × Bool)
      → IsRing IsPage rb₀
      → hit.locked ≡ hit.next
      → GrantsAll IsPage rb₀ n r
      → ((p : ℕ) (hit' : Hit) → EntryOk rb₀ n p hit' → ResultOk (k p hit'))
      → ResultOk (on_alloc r hit k)
  given-ResultOk rb₀ n (none, rb) hit k i held g f = record { ring = g; held = held }
  given-ResultOk rb₀ n (some p, rb) hit k i held g f =
      f p (record hit { rb = rb }) (record { was = i; entry = g; held = held })

  -- An entry is allocated, and written by `k`.
  pub alloc-ResultOk :
      (circular : Bool) (size id : ℕ) (hit hit' : Hit) (k : ℕ → Hit → Hit × Bool)
      → HitOk hit
      → hit'.locked ≡ hit'.next
      → ((p : ℕ) (hit₁ : Hit) → EntryOk hit.rb (frame_align size) p hit₁ → ResultOk (k p hit₁))
      → ResultOk (on_alloc (alloc circular size id hit.rb) hit' k)
  alloc-ResultOk circular size id hit hit' k ok held f =
      given-ResultOk hit.rb (frame_align size) (alloc circular size id hit.rb) hit' k ok.ring held
        (alloc-GrantsAll IsPage circular size id hit.rb ok.ring) f

  pub and_then-ResultOk :
      (r : Hit × Bool) (k : Hit → Hit × Bool)
      → ResultOk r
      → ((hit : Hit) → HitOk hit → ResultOk (k hit))
      → ResultOk (and_then r k)
  and_then-ResultOk (hit, false) k ok f = ok
  and_then-ResultOk (hit, true) k ok f = f hit ok

  -- Bytes of the entry are written.
  pub fill-EntryOk :
      (rb₀ : Rb) (n p : ℕ) (hit : Hit) (m : Memory)
      → EntryOk rb₀ n p hit
      → Inside p (p + n) hit.rb.mem m
      → EntryOk rb₀ n p (with_mem m hit)
  fill-EntryOk rb₀ n p hit m e inside = record {
    was = e.was;
    entry = record {
      ring = fill-IsRing IsPage rb₀ hit.rb n p m hit.rb.prev_frame e.entry inside;
      low = e.entry.low;
      high = e.entry.high;
      end = e.entry.end;
      same_page = e.entry.same_page;
      before = e.entry.before;
    };
    held = e.held;
  }

  pub store-EntryOk :
      (rb₀ : Rb) (n p : ℕ) (hit : Hit) (k a v : ℕ)
      → p ≤ a
      → a + k ≤ p + n
      → EntryOk rb₀ n p hit
      → EntryOk rb₀ n p (with_mem (store k hit.rb.mem a v) hit)
  store-EntryOk rb₀ n p hit k a v low high e = fill-EntryOk rb₀ n p hit (store k hit.rb.mem a v) e (
      Inside-store p (p + n) k hit.rb.mem hit.rb.mem a v low high
        (Inside-refl p (p + n) hit.rb.mem))

  pub EntryOk-SameFrame :
      (rb₀ : Rb) (n p : ℕ) (hit hit' : Hit)
      → SameFrame hit hit'
      → EntryOk rb₀ n p hit
      → EntryOk rb₀ n p hit'
  EntryOk-SameFrame rb₀ n p hit hit' same e = record {
    was = e.was;
    entry = subst (Granted IsPage rb₀ n p) (sym same.same_rb) e.entry;
    held = same.same_locked ∙ e.held ∙ sym same.same_next;
  }

  pub HitOk-SameFrame : (hit hit' : Hit) → SameFrame hit hit' → HitOk hit → HitOk hit'
  HitOk-SameFrame hit hit' same ok = record {
    ring = subst (IsRing IsPage) (sym same.same_rb) ok.ring;
    held = same.same_locked ∙ ok.held ∙ sym same.same_next;
  }

  -- The value of a variable behind its number
  pub valued-ResultOk :
      (rb₀ : Rb) (p : ℕ) (r : Hit × Option ℕ) → EntryOk rb₀ 20 p r.0 → ResultOk (put_value p r)
  valued-ResultOk rb₀ p (hit, none) e =
      let f =
        EntryOk-HitOk rb₀ 20 p (with_mem (store 8 hit.rb.mem (p + 12) 0) hit)
          (store-EntryOk rb₀ 20 p hit 8 (p + 12) 0 (omega arith) (omega arith) e) in
      record { ring = f.ring; held = f.held }
  valued-ResultOk rb₀ p (hit, some v) e =
      EntryOk-HitOk rb₀ 20 p (with_mem (store 8 hit.rb.mem (p + 12) v) hit)
        (store-EntryOk rb₀ 20 p hit 8 (p + 12) v (omega arith) (omega arith) e)

  -- A room for what is written before the data of an entry.
  pub frame_align-room : (k : ℕ) → k ≤ 8000 → k ≤ frame_align k
  frame_align-room k small = omega arith

  pub chunk_size-small : (rb : Rb) (left : ℕ) → IsRing IsPage rb → chunk_size rb left ≤ 4096
  chunk_size-small rb left i =
      let place = i.linked.place (head rb.w) i.w_page in ground (arith, place, i.w_low, i.w_high)

  pub written-Inside :
      (n p : ℕ) (m : Memory) (bs : List ℕ)
      → 20 + length bs ≤ n
      → Inside p (p + n) m (put_bytes m (p + 20) bs)
  written-Inside n p m bs fits =
      Inside-put_bytes p (p + n) m m (p + 20) bs (omega arith) (omega arith)
        (Inside-refl p (p + n) m)

  -- The bytes of a chunk, or none of it
  pub taken-ResultOk :
      (rb₀ : Rb) (n p : ℕ) (r : List ℕ × Bool) (hit : Hit)
      → 20 + length r.0 ≤ n
      → EntryOk rb₀ n p hit
      → ResultOk (take_chunk p r hit)
  taken-ResultOk rb₀ n p (bytes, true) hit fits e =
      let m = put_bytes hit.rb.mem (p + 20) bytes in
      EntryOk-HitOk rb₀ n p (with_mem m hit)
        (fill-EntryOk rb₀ n p hit m e (written-Inside n p hit.rb.mem bytes fits))
  taken-ResultOk rb₀ n p (bytes, false) hit fits e = record {
    ring =
        release-IsRing IsPage rb₀ hit.rb n p (put_bytes hit.rb.mem (p + 20) bytes) e.was e.entry
          (written-Inside n p hit.rb.mem bytes fits);
    held = e.held;
  }
