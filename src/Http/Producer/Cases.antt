-- ===== src/Http/Producer/Cases.antt =====
-- The phases of a produced stream, told apart by its thread and its wake-ups.
use mongoose_cpp.Prelude.{ℕ, ◌≡◌, sym, ◌∙◌, true, false, List, Bytes, arith}
use mathlib.Core.Bool.{true≢false}
use mongoose_cpp.Mongoose.{MgCall}
use mongoose_cpp.Http.Producer.{Run}
use mongoose_cpp.Http.Producer.Phases.{
  Phase, idle, flying, ending, ended, Idle, Flying, Ending, Ended,
}

module _ {conn id ref : ℕ} {base : List MgCall} {chunks : List Bytes} where
  -- The phase of a run, by where its thread is and whether a wake-up is on its way.
  pub Idle-of :
      (r : Run)
      → Phase conn id ref base chunks r
      → r.is_done ≡ false
      → r.inbox ≡ 0
      → Idle conn id ref base chunks r
  Idle-of r (idle i) d q = i
  Idle-of r (flying f) d q = absurd (omega (arith, q, f.posted))
  Idle-of r (ending f) d q = absurd (omega (arith, q, f.posted))
  Idle-of r (ended f) d q = absurd (true≢false (sym f.done ∙ d))

  pub Flying-of :
      (r : Run)
      → Phase conn id ref base chunks r
      → r.is_done ≡ false
      → r.inbox ≡ 1
      → Flying conn id ref base chunks r
  Flying-of r (flying f) d q = f
  Flying-of r (idle i) d q = absurd (omega (arith, q, i.quiet))
  Flying-of r (ending f) d q = absurd (true≢false (sym f.done ∙ d))
  Flying-of r (ended f) d q = absurd (true≢false (sym f.done ∙ d))

  pub Ending-of :
      (r : Run)
      → Phase conn id ref base chunks r
      → r.is_done ≡ true
      → r.inbox ≡ 1
      → Ending conn id ref base chunks r
  Ending-of r (ending f) d q = f
  Ending-of r (idle i) d q = absurd (omega (arith, q, i.quiet))
  Ending-of r (flying f) d q = absurd (true≢false (sym d ∙ f.in_loop))
  Ending-of r (ended f) d q = absurd (omega (arith, q, f.quiet))

  pub Ended-of :
      (r : Run)
      → Phase conn id ref base chunks r
      → r.is_done ≡ true
      → r.inbox ≡ 0
      → Ended conn ref base chunks r
  Ended-of r (ended f) d q = f
  Ended-of r (idle i) d q = absurd (true≢false (sym d ∙ i.in_loop))
  Ended-of r (flying f) d q = absurd (omega (arith, q, f.posted))
  Ended-of r (ending f) d q = absurd (omega (arith, q, f.posted))
