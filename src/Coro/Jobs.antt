-- ===== src/Coro/Jobs.antt =====
-- What a program does with the frames of its tasks, in any order: makes, launches, awaits, ends and
-- destroys them, runs one by `block_run`, awaits a `coro::promise` of one, and resumes one when its
-- entry of io_uring is completed. It is the code of kkp/kkp-core/include/kkp/coro/task.hpp, `launch` and
-- `block_run` of kkp/kkp-core/include/kkp/io_context.hpp, and the call of a handle in
-- kkp/kkp-core/include/kkp/uring/uring_loop.hpp, as steps of the one thread.
pub mod Other
pub mod Phases
pub mod Join
pub mod Effect
pub mod Callers
pub mod Wakes
pub mod Sleeps
use kk_proxy.Common.{
  ℕ, Bool, true, false, Option, none, some, List, [], ◌∷◌, ◌≡◌, ◌==◌, if◌then◌else◌,
}
use kk_proxy.Coro.Task.{
  Memory, Next, resume, noop, Outcome, store, await_suspend, await_ready, end_body, start,
}
use kk_proxy.Coro.Program.{new_frame}
use kk_proxy.Coro.Promise.{promise, await_promise}

pub data Step (V : Type 0) : Type 0 where
  makes : (h : ℕ) → Step V
  launches : (context h : ℕ) → Step V
  runs : (context h : ℕ) → Step V
  awaits : (caller callee : ℕ) → Step V
  ends : Outcome V → (h : ℕ) → Step V
  destroys : (h : ℕ) → Step V
  awaits_promise : (caller task : ℕ) → Step V
  completes : (h : ℕ) → Step V

module _ {V : Type 0} where
  -- The frame that a step is about. Awaiting a promise touches none; it suspends its caller.
  abbrev pub target : Step V → ℕ
  target (makes h) = h
  target (launches context h) = h
  target (runs context h) = h
  target (awaits caller callee) = callee
  target (ends o h) = h
  target (destroys h) = h
  target (awaits_promise caller task) = caller
  target (completes h) = h

  -- Whether a step is about a frame as a task. When the loop resumes a coroutine, its task stays as it is.
  abbrev pub is_about : ℕ → Step V → Bool
  is_about d (completes h) = false
  is_about d s = target s == d

  -- `launch` of a task: its context and its flag are set, and then it is resumed. The task object that
  -- it returns holds the same handle.
  unfoldable pub launch : (context h : ℕ) → Memory V → Option (Next × Memory V)
  launch context h m = elim (start context true h m) [ none ↦ none | some m' ↦ some (resume h, m') ]

  -- `co_await` of a task that stays where it is: at once when it is done.
  unfoldable pub await_task : (caller callee : ℕ) → Memory V → Option (Next × Memory V)
  await_task caller callee m = elim (await_ready (some callee) m) [
    | none ↦ none
    | some ready ↦ if ready then some (resume caller, m) else await_suspend caller callee m
  ]

  -- Who is resumed next, and `none` for a frame that is not there, or that is made over another.
  unfoldable pub step : Step V → Memory V → Option (Next × Memory V)
  unfolding launch await_task
  step (makes h) m = elim (m.frames h) [
    | none ↦ some (noop, store h (some new_frame) m)
    | some f ↦ none
  ]
  step (launches context h) m = launch context h m
  step (runs context h) m = elim (start context false h m) [
    | none ↦ none
    | some m' ↦ some (resume h, m')
  ]
  step (awaits caller callee) m = await_task caller callee m
  step (ends o h) m = end_body o h m
  step (destroys h) m = elim (m.frames h) [ none ↦ none | some f ↦ some (noop, store h none m) ]
  step (awaits_promise caller task) m = some (await_promise caller (promise task) m)
  step (completes h) m = elim (m.frames h) [ none ↦ none | some f ↦ some (resume h, m) ]

  -- The steps that a program does, with who is resumed after each.
  pub data Runs : Memory V → List (Step V × Next) → Memory V → Type 0 where
    stops : {m : Memory V} → Runs m [] m
    goes :
        {m m₁ m' : Memory V} {log : List (Step V × Next)} (s : Step V) (n : Next)
        → step s m ≡ some (n, m₁)
        → Runs m₁ log m'
        → Runs m ((s, n) ∷ log) m'

  -- The steps of a log that are about one frame, and who is resumed after each of them.
  abbrev pub steps_of : ℕ → List (Step V × Next) → List (Step V)
  steps_of d [] = []
  steps_of d ((s, n) ∷ log) = if is_about d s then s ∷ steps_of d log else steps_of d log

  abbrev pub nexts_of : ℕ → List (Step V × Next) → List Next
  nexts_of d [] = []
  nexts_of d ((s, n) ∷ log) = if is_about d s then n ∷ nexts_of d log else nexts_of d log
