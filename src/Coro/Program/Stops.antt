-- ===== src/Coro/Program/Stops.antt =====
-- When the loop of a program with launched tasks stops: what is so between two ticks.
pub mod Go
pub mod Once
use kk_proxy.Common.{
  ℕ, zero, suc, ◌+◌, ◌-◌, ◌≤◌, ◌<◌, ◌≡◌, ◌≢◌, ◌⊎◌, inl, inr, refl, sym, subst, ap, ◌∙◌, Bool, true,
  false, Bool-cases, Option, none, some, List, [], ◌∷◌, ◌++◌, ◌==◌, if◌then◌else◌, ℤ, length, arith,
  some-injective, Option-cases, replicate,
}
use kk_proxy.Uring.Loop.{UserData, null, completed, io_data, on_wait}
use kk_proxy.Coro.Flag.{is_daemon, set_daemon}
use kk_proxy.Coro.Flag.Laws.{set_daemon_lem}
use kk_proxy.Coro.Task.{
  Frame, Memory, Next, resume, noop, Got, Outcome, store, ended, task_finish, final_frame, end_body,
  start,
}
use kk_proxy.Coro.Task.Laws.{
  store-same, store-other, end_body_lem, ended_caller, ended_flags, ended_context,
  final_frame-caller, final_frame-daemon, final_frame-finish, start_lem,
}
use kk_proxy.Coro.Program.{
  Body, ends, acts, awaits_io, awaits_task, launches, awaits_job, Rest, at_start, with_io,
  with_task, Control, going, to, undefined, Machine, new_frame, put, marks, after_end, call_task,
  await_task, launch, go, enter, take_out, System, with_world, serve, wait, come_back, turn, tick,
  ticks, block_run, resumed, one_frame,
}
use kk_proxy.Coro.Program.Scoped.{IsScoped}
use kk_proxy.Coro.Program.Invariant.{Mode, running, is_live, Inv}
use kk_proxy.Coro.Program.Invariant.Changes.{IsKept}
use kk_proxy.Coro.Program.Invariant.Turns.{HoldsAt, Holds, below_next, twice}
use kk_proxy.Coro.Program.Invariant.Launching.{await_task-done, await_task-daemon}
use kk_proxy.Coro.Program.Ticks.{await_task-new, marks-same, marks-finish}
use kk_proxy.Coro.Program.Safe.{turn-Holds, first-Holds}
use kk_proxy.Coro.Program.Ran.{now}
use kk_proxy.Coro.Program.Laws.{root, first, block_run-first}

-- No entry is the mark of `finish`.
abbrev pub IsUnmarked : List UserData → Type 0
IsUnmarked [] = Unit
IsUnmarked (d ∷ ds) = (d ≢ completed) × IsUnmarked ds

pub IsUnmarked-append :
    (ds : List UserData) (h : ℕ) → IsUnmarked ds → IsUnmarked (ds ++ (io_data h ∷ []))
IsUnmarked-append [] h u = ((λ e. cc), tt)
IsUnmarked-append (d ∷ ds) h (n, u) = (n, IsUnmarked-append ds h u)

pub IsUnmarked-none : (ds : List UserData) → IsUnmarked ds → IsUnmarked (ds ++ [])
IsUnmarked-none [] u = tt
IsUnmarked-none (d ∷ ds) (n, u) = (n, IsUnmarked-none ds u)

pub IsUnmarked-take_out :
    (d : UserData) (ds : List UserData) (place : ℕ)
    → IsUnmarked (d ∷ ds)
    → let (x, rest) = take_out d ds place in IsUnmarked (x ∷ rest)
IsUnmarked-take_out d [] place u = u
IsUnmarked-take_out d (x ∷ ds) zero u = u
IsUnmarked-take_out d (x ∷ ds) (suc place) (n, u) =
    let (m, v) = IsUnmarked-take_out x ds place u in (m, (n, v))

module _ {V : Type 0} (context : ℕ) (running : Bool) where
  -- The loop runs, the first coroutine has not ended, and nothing has asked the loop to stop.
  abbrev pub Goes : Memory V → List UserData → Type 0
  Goes m ds =
      (running ≡ true) × (m.finished ≡ []) × IsUnmarked ds × (m.frames 0 ≡ some (root context))

  -- It has ended, and `finish` of the context was called once.
  abbrev pub Ended : Memory V → Type 0
  Ended m = (m.finished ≡ context ∷ []) × (m.frames 0 ≡ none)

  abbrev pub StageAt : Memory V → List UserData → Type 0
  StageAt m ds = Goes m ds ⊎ Ended m

  -- A change of the memory that leaves the first frame and the finished contexts as they are.
  pub keep :
      (ds : List UserData) (m m' : Memory V)
      → m'.finished ≡ m.finished
      → m'.frames 0 ≡ m.frames 0
      → StageAt m ds
      → StageAt m' ds
  keep ds m m' e f (inl (t, p, q, r)) = inl (t, e ∙ p, q, f ∙ r)
  keep ds m m' e f (inr (p, r)) = inr (e ∙ p, f ∙ r)

module _ {V E : Type 0} (context : ℕ) (running : Bool) where
  abbrev pub Stage : Machine V E → Type 0
  Stage w = StageAt context running w.memory w.submitted
