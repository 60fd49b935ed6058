-- ===== src/Enable/Tests.antt =====
-- Two tracepoints that are enabled and disabled.
use kgtp.Base.{ℕ, ◌≡◌, refl, Bool, true, false, List, [], ◌∷◌}
use kgtp.Hex.{hex2ulongest, hex2ulongest_from, hex2int}
use kgtp.Enable.{Tracepoint, enable_disable, enable_ret, enable_at, qtenable_qtdisable}
use kgtp.Enable.Toggle.{enable_disable-twice, qtenable_qtdisable-unnoted}

abbrev points : List Tracepoint
points =
    record { num = 1; addr = 64; disable = true; is_kprobe = true; is_ret = false }
    ∷ record { num = 2; addr = 80; disable = false; is_kprobe = true; is_ret = true }
    ∷ []

enable_disable-twice_example :
    (enable_disable 0 2 true (enable_disable 0 2 true points).0).0 ≡ points
enable_disable-twice_example = enable_disable-twice 0 2 true true points

-- `1:40`
abbrev command : List ℕ
command = 49 ∷ 58 ∷ 52 ∷ 48 ∷ []

abbrev succeeds : Bool → Bool → ℕ → ℕ
succeeds is_ret enable addr = 0

qtenable_qtdisable-unnoted_example : (qtenable_qtdisable succeeds command true points).1 ≡ points
qtenable_qtdisable-unnoted_example =
    qtenable_qtdisable-unnoted succeeds (λ is_ret enable addr. refl) command true points

replies : qtenable_qtdisable succeeds command true points ≡ (enable_ret 0, points)
unfolding qtenable_qtdisable enable_at hex2ulongest hex2ulongest_from hex2int
replies = refl
