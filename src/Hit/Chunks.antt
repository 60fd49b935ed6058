-- ===== src/Hit/Chunks.antt =====
-- gtp.c, the loop of `gtp_action_memory_read`: it ends.
use kgtp.Base.{
  ℕ, zero, suc, ◌+◌, ◌*◌, ◌-◌, ◌%◌, ◌^◌, ◌≤◌, ◌<◌, ◌≡◌, ◌≢◌, arith, Bool, true, false, Option, none,
  List, ◌⊎◌, inl, inr, ltb, Bool-cases,
}
use kgtp.Ring.Pages.{Rb, head, page_end}
use kgtp.Ring.Write.{alloc_max}
use kgtp.Ring.Append.{alloc-fits, alloc_max-is}
use kgtp.Hit.{Hit, Outside, Site}
use kgtp.Hit.Frame.{take_chunk, collect_chunk, chunk_size, after_chunk, chunks}
use kgtp.Hit.Ok.{Behaves}
use kgtp.Hit.EntryOk.{HitOk, ResultOk, chunk_size-small}
use kgtp.Hit.FrameOk.{collect_chunk-ResultOk}

module _ (IsPage : ℕ → Type 0) where
  -- Where no entry of memory fits behind `w`
  abbrev Full : Hit × Bool → Type 0
  Full (hit, false) = Unit
  Full (hit, true) = alloc_max hit.rb < 20

  taken-Full :
      (p : ℕ) (r : List ℕ × Bool) (hit : Hit) → alloc_max hit.rb < 20 → Full (take_chunk p r hit)
  taken-Full p (bytes, true) hit full = full
  taken-Full p (bytes, false) hit full = tt

  module _ (o : Outside) (behaves : Behaves o) (s : Site) where
    -- An entry without bytes is made where exactly its head fits, and fills the page.
    empty-Full :
        (addr : ℕ) (hit : Hit)
        → HitOk IsPage hit
        → alloc_max hit.rb ≡ 20
        → Full (collect_chunk o s addr 0 hit)
    unfolding collect_chunk
    empty-Full addr hit ok e =
        let place = ok.ring.linked.place (head hit.rb.w) ok.ring.w_page in
        let sum = alloc_max-is IsPage hit.rb ok.ring in
        let fits : hit.rb.w + 20 ≤ page_end hit.rb.w = omega (arith, sum, e) in
        let full : alloc_max (record hit.rb { w = hit.rb.w + 20 }) < 20 =
          omega (arith, sum, e, place, ok.ring.w_low) in
        let given = alloc-fits o.circular 20 hit.id hit.rb (omega arith) fits in
        rw given (taken-Full hit.rb.w _ _ full)

    -- What is left for the fuel
    abbrev Enough : ℕ → ℕ → Rb → Type 0
    Enough fuel left rb = (2 * left + 1 ≤ fuel) ⊎ ((2 * left ≤ fuel) × (alloc_max rb < 20))

    abbrev Ends : Option (Hit × Bool) → Type 0
    Ends o = o ≢ none

    -- A round that succeeds leaves less for the fuel: it has taken bytes, or filled the page.
    after-Ends :
        (fuel left size : ℕ) (r : Hit × Bool) (again : Hit → Option (Hit × Bool))
        → ResultOk IsPage r
        → 1 ≤ left
        → ((1 ≤ size) × (2 * left ≤ fuel + 1)) ⊎ (Full r × (2 * left ≤ fuel))
        → ((hit : Hit) → HitOk IsPage hit → Enough fuel (left - size) hit.rb → Ends (again hit))
        → Ends (after_chunk r again)
    after-Ends fuel left size (hit, false) again ok some_left more f = λ e. cc
    after-Ends fuel left size (hit, true) again ok some_left more f = f hit ok (elim more [
      | inl (taken, enough) ↦ inl (omega arith)
      | inr (full, enough) ↦ inr (omega arith, full)
    ])

    -- The size of a chunk, by the room in the page
    sized :
        (fuel n addr : ℕ) (hit : Hit)
        → HitOk IsPage hit
        → Enough (suc fuel) (suc n) hit.rb
        → ((1 ≤ chunk_size hit.rb (suc n)) × (2 * suc n ≤ fuel + 1))
          ⊎ (Full (collect_chunk o s addr (chunk_size hit.rb (suc n)) hit) × (2 * suc n ≤ fuel))
    sized fuel n addr hit ok (inr (enough, full)) =
        let c : ltb (alloc_max hit.rb) 20 ≡ true = ground arith in
        inl (rw c (omega arith), omega arith)
    sized fuel n addr hit ok (inl enough) = elim (Bool-cases (ltb (alloc_max hit.rb) 20)) [
      | inl c ↦ inl (rw c (omega arith), omega arith)
      | inr c ↦
          let room : (alloc_max hit.rb ≡ 20) ⊎ (20 < alloc_max hit.rb) = ground arith in
          elim room [
            | inl exact ↦
                let none_left : chunk_size hit.rb (suc n) ≡ 0 = rw c (omega (arith, exact)) in
                inr (rw none_left (empty-Full addr hit ok exact), omega arith)
            | inr more ↦ inl (rw c (omega (arith, more)), omega arith)
          ]
    ]

    chunks-Ends :
        (fuel addr left : ℕ) (hit : Hit)
        → HitOk IsPage hit
        → Enough fuel left hit.rb
        → Ends (chunks o s fuel addr left hit)
    unfolding chunks
    chunks-Ends fuel addr zero hit ok enough = λ e. cc
    chunks-Ends zero addr (suc n) hit ok enough = absurd (omega (arith, enough))
    chunks-Ends (suc fuel) addr (suc n) hit ok enough =
        let size = chunk_size hit.rb (suc n) in
        after-Ends fuel (suc n) size (collect_chunk o s addr size hit)
          (λ hit'. chunks o s fuel ((addr + size) % 2 ^ 64) (suc n - size) hit')
          (collect_chunk-ResultOk IsPage o behaves s addr size hit
            (chunk_size-small IsPage hit.rb (suc n) ok.ring) ok)
          (omega arith) (sized fuel n addr hit ok enough)
          (λ hit'. chunks-Ends fuel ((addr + size) % 2 ^ 64) (suc n - size) hit')

    -- The loop of `gtp_action_memory_read` on a ring buffer in order: it returns within two rounds
    -- for each byte that is asked for and one more, whatever `gtp_rb_alloc` and the reads of the
    -- memory return. An entry without bytes is made at most once in a page.
    pub chunks-end :
        (fuel addr size : ℕ) (hit : Hit)
        → HitOk IsPage hit
        → 2 * size + 1 ≤ fuel
        → chunks o s fuel addr size hit ≢ none
    chunks-end fuel addr size hit ok enough = chunks-Ends fuel addr size hit ok (inl enough)
