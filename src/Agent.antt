-- ===== src/Agent.antt =====
-- gtp.c, agent expressions: the byte codes, the interpreter, the two checkers, and their theorems.
pub mod Op
pub mod Word
pub mod Host
pub mod Machine
pub mod Cases
pub mod Tsv
pub mod VarAdd
pub mod Getv
pub mod Setv
pub mod Fold
pub mod Round
pub mod Simple
pub mod Loop
pub mod CheckX
pub mod Shape
pub mod ExecShape
pub mod ExecReach
pub mod ExecFits
pub mod Kept
pub mod WorldKept
pub mod CasesKept
pub mod RunKept
pub mod RoundShape
pub mod RoundEffect
pub mod Quiet
pub mod WalkRoute
pub mod Safety
pub mod Terminates
pub mod Unbalanced
pub mod DivFault
pub mod LoopRefuses
pub mod KnownSum
mod Tests
pub mod Route
pub mod Exec
