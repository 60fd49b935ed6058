-- ===== src/Ring/Sample.antt =====
-- A ring buffer of three pages, as `gtp_rb_page_alloc` makes it.
use mathlib.Core.Path.{subst}
use kgtp.Base.{ℕ, ◌+◌, ◌*◌, ◌<◌, ◌≡◌, refl, sym, ◌∙◌, arith, some}
use kgtp.Ring.Bytes.{Memory, store}
use kgtp.Ring.Pages.{Rb}
use kgtp.Ring.Setup.{page_loop, page_alloc, close_or_fail, close_ring, add_page}
use kgtp.Ring.Linked.{IsPlace}
use kgtp.Ring.Inv.{IsRing}
use kgtp.Ring.Built.{Got, page_alloc-IsRing}

abbrev pub page : ℕ → ℕ
page i = i * 4096 + 4096

pub page-IsPlace : (i : ℕ) → i < 3 → IsPlace (page i)
page-IsPlace i lt = omega arith

pub page-distinct : (i j : ℕ) → i < 3 → j < 3 → page i ≡ page j → i ≡ j
page-distinct i j li lj e = omega arith

abbrev pub blank : Rb
blank = record {
  mem = λ x. 0;
  prev_frame = 0;
  w = 0;
  prev_w = 0;
  r = 0;
  rp = 0;
  rp_id = 0;
  discarded = 0;
}

-- The page that is allocated last is the first.
abbrev pub links : Memory
links =
    let m₁ = store 8 (λ x. 0) (4096 + 4088) 0 in
    let m₂ = store 8 (store 8 m₁ (8192 + 4088) (4096 + 8)) 4096 (8192 + 8) in
    let m₃ = store 8 (store 8 m₂ (12288 + 4088) (8192 + 8)) 8192 (12288 + 8) in
    store 8 (store 8 m₃ (4096 + 4088) (12288 + 8)) 12288 (4096 + 8)

abbrev pub built : Rb
built = record blank { mem = links; w = 12296; r = 12296 }

pub page_alloc-built : page_alloc (λ i. some (page i)) (3 * 4096) blank ≡ some built
unfolding page_alloc page_loop close_or_fail close_ring add_page
page_alloc-built = refl

pub some_injective : {a b : Rb} → some a ≡ some b → a ≡ b
some_injective e = cc

pub built-IsRing : IsRing (Got page 3) built
built-IsRing =
    let (rb, e, ring, met) =
      page_alloc-IsRing page 3 page-IsPlace page-distinct (3 * 4096) blank (omega arith)
        (omega arith) in
    subst (IsRing (Got page 3)) (some_injective (sym e ∙ page_alloc-built)) ring

-- Twenty bytes have been written.
abbrev pub written : Rb
written = record built { w = 12316 }

pub written-IsRing : IsRing (Got page 3) written
written-IsRing = record {
  linked = built-IsRing.linked;
  w_page = built-IsRing.w_page;
  w_low = omega arith;
  w_high = omega arith;
  r_page = built-IsRing.r_page;
}
