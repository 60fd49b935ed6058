-- ===== src/Ring/Tests.antt =====
-- The ring of three pages, and the theorems of the ring buffer at it.
use kgtp.Base.{◌*◌, ◌≡◌, ◌≢◌, refl, arith, false, some}
use kgtp.Ring.Bytes.{load, store}
use kgtp.Ring.Pages.{Rb, get_next}
use kgtp.Ring.Setup.{page_alloc}
use kgtp.Ring.Write.{alloc, alloc_aligned, take_or_fail, get_page, put_page}
use kgtp.Ring.Inv.{IsRing}
use kgtp.Ring.Built.{Got, page_alloc-IsRing}
use kgtp.Ring.Alloc.{Grants, alloc-Grants}
use kgtp.Ring.Exchange.{Takes, get_page-Takes}
use kgtp.Ring.PutBack.{Puts, put_page-Puts}
use kgtp.Ring.Unread.{alloc-keeps}
use kgtp.Ring.Sample.{
  page, page-IsPlace, page-distinct, blank, links, built, written, written-IsRing,
}

first_alloc : (alloc false 18 1 built).0 ≡ some 12296
unfolding alloc alloc_aligned take_or_fail
first_alloc = refl

-- 4068 bytes do not fit behind the first twenty: the next page is entered, with a mark at its start.
second_alloc : (alloc false 4068 1 written).0 ≡ some 8212
unfolding alloc alloc_aligned take_or_fail load store
second_alloc = refl

page_alloc-IsRing_example :
    (rb : Rb) × (page_alloc (λ i. some (page i)) (3 * 4096) blank ≡ some rb)
    × IsRing (Got page 3) rb
    × (rb.r ≡ rb.w)
page_alloc-IsRing_example =
    page_alloc-IsRing page 3 page-IsPlace page-distinct (3 * 4096) blank (omega arith) (omega arith)

alloc-Grants_example : Grants (Got page 3) 4068 (alloc false 4068 1 written)
alloc-Grants_example = alloc-Grants (Got page 3) false 4068 1 written written-IsRing

next_page-other : get_next links 12296 ≢ 12296
unfolding load store
next_page-other e = absurd (omega (arith, e))

get_page-Takes_example : Takes (Got page 3) written (get_page written)
get_page-Takes_example = get_page-Takes (Got page 3) written written-IsRing next_page-other

put_page-Puts_example : Puts (Got page 3) 16392 false written (put_page 16392 false written)
put_page-Puts_example =
    put_page-Puts (Got page 3) 16392 false written (omega arith)
      (λ g. absurd (omega (arith, g.1, g.2))) written-IsRing

alloc-keeps_example : (alloc false 4068 1 written).1.mem 12300 ≡ links 12300
alloc-keeps_example =
    alloc-keeps 12300 (Got page 3) 4068 1 written written-IsRing (omega arith) (λ e. refl)
