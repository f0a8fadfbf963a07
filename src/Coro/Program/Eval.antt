-- ===== src/Coro/Program/Eval.antt =====
-- The body of a coroutine read from the top to the bottom, with no frames and no loop.
use kk_proxy.Common.{ℕ, suc, ◌+◌, Option, none, some, List, [], ◌∷◌, ◌++◌, ℤ}
use kk_proxy.Coro.Task.{Outcome}
use kk_proxy.Coro.Task.Laws.{result_of}
use kk_proxy.Coro.Program.{Body, ends, acts, awaits_io, awaits_task, launches, awaits_job}

-- How the body ends, the results that are left, what was seen, and how many tasks were awaited.
abbrev pub Run : Type 0 → Type 0 → Type 0
Run V E = Outcome V × List ℤ × List E × ℕ

module _ {V E : Type 0} where
  abbrev pub after_seen : List E → ℕ → Option (Run V E) → Option (Run V E)
  after_seen t n none = none
  after_seen t n (some (o, rs, t', n')) = some (o, rs, t ++ t', n + n')

  -- An awaited task runs to its end on the spot, and an awaiter takes the next result. `none`: there are too
  -- few results, or a task is launched.
  unfoldable pub eval : Body V E → List ℤ → Option (Run V E)
  eval (ends o) rs = some (o, rs, [], 0)
  eval (acts e b) rs = after_seen (e ∷ []) 0 (eval b rs)
  eval (awaits_io k) [] = none
  eval (awaits_io k) (r ∷ rs) = eval (k r) rs
  eval (awaits_task b k) rs = elim (eval b rs) [
    | none ↦ none
    | some (o, left, t, n) ↦ after_seen t (suc n) (eval (k (result_of o)) left)
  ]
  eval (launches context b k) rs = none
  eval (awaits_job job k) rs = none
