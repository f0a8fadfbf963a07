-- ===== src/Coro/Jobs/Wakes.antt =====
-- Why a coroutine is resumed: each time that one is has a cause in what the program did before.
use mathlib.Core.List.{Memᴰ}
use kk_proxy.Common.{ℕ, ◌≡◌, ◌⊎◌, inl, inr, refl, none, some, List, [], ◌∷◌, ◌++◌}
use kk_proxy.Coro.Task.{Memory, Next, resume, Outcome}
use kk_proxy.Coro.Jobs.{
  Step, makes, launches, awaits, ends, destroys, awaits_promise, runs, completes, target, step,
  Runs, stops, goes,
}
use kk_proxy.Coro.Jobs.Effect.{step-Effect}
use kk_proxy.Coro.Jobs.Callers.{steps_in, caller_awaited, done_ended, Local, Effect-Local}

module _ {V : Type 0} where
  -- The cause for which a step may resume the coroutine `c`, after the steps `before`: it is launched, or run by
  -- `block_run`; an entry of its was completed; it
  -- awaits a task that has ended before, or another coroutine awaits it and so starts it; or a task ends
  -- that it has awaited before.
  abbrev pub Cause : ℕ → List (Step V) → Step V → Type 0
  Cause c before (launches context h) = h ≡ c
  Cause c before (runs context h) = h ≡ c
  Cause c before (completes h) = h ≡ c
  Cause c before (awaits caller callee) =
      ((caller ≡ c) × ((o : Outcome V) × Memᴰ (ends o callee) before)) ⊎ (callee ≡ c)
  Cause c before (ends o h) = Memᴰ (awaits c h) before
  Cause c before _ = ⊥

  last_step :
      (log : List (Step V × Next)) (s : Step V) (n : Next) {m m' : Memory V}
      → Runs m (log ++ ((s, n) ∷ [])) m'
      → (m₁ : Memory V) × Runs m log m₁ × (step s m₁ ≡ some (n, m'))
  last_step [] s n {m} (goes _ _ did stops) = (m, stops, did)
  last_step (x ∷ log) s n (goes t k did r) =
      let (m₁, before, last) = last_step log s n r in (m₁, goes t k did before, last)

  -- In every run of a program from its start, with no frames, each time that a coroutine is resumed has
  -- one of these causes: it is launched, or started by `block_run`; the loop resumes it for a
  -- completion; it is started by a coroutine that awaits it; it awaits a task whose body has ended
  -- before; or the body of a task ends that it has awaited before.
  pub Runs-Cause :
      {m m' : Memory V} (c : ℕ) (log : List (Step V × Next)) (s : Step V)
      → ((d : ℕ) → m.frames d ≡ none)
      → Runs m (log ++ ((s, resume c) ∷ [])) m'
      → Cause c (steps_in log) s
  Runs-Cause {m} {m'} c log s empty r =
      let (m₁, before, did) = last_step log s (resume c) r in
      let local = Effect-Local c (step-Effect s _ m₁ m' did) refl in caused s m₁ before local
    where
      caused :
          (s : Step V) (m₁ : Memory V)
          → Runs m log m₁
          → Local c (m₁.frames (target s)) s
          → Cause c (steps_in log) s
      caused (launches context h) m₁ before l = l
      caused (runs context h) m₁ before l = l
      caused (completes h) m₁ before l = l
      caused (awaits caller callee) m₁ before (inr l) = inr l
      caused (awaits caller callee) m₁ before (inl (l, d)) = elim (done_ended callee before d) [
        | inl old ↦ cc (rw (empty callee) at old)
        | inr ended' ↦ inl (l, ended')
      ]
      caused (ends o h) m₁ before l = elim (caller_awaited c h before l) [
        | inl old ↦ cc (rw (empty h) at old)
        | inr awaited ↦ awaited
      ]
      caused (makes h) m₁ before l = elim l [ ]
      caused (destroys h) m₁ before l = elim l [ ]
      caused (awaits_promise caller task) m₁ before l = elim l [ ]
