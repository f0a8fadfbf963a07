-- ===== src/Tests/Programs.antt =====
-- A program that is run: its first coroutine awaits another one, which waits for a completion.
use kk_proxy.Common.{none, ℕ, Bool, true, false, ◌≡◌, refl, some, [], ◌∷◌, ℤ, pos, negsuc}
use kk_proxy.Coro.Flag.{is_daemon, set_daemon}
use kk_proxy.Uring.Loop.{on_wait, resume}
use kk_proxy.Coro.Task.{
  Got, got, rethrown, bad_access, returned, end_body, final_suspend, await_ready, await_suspend,
  get_value, start,
}
use kk_proxy.Coro.Task
use kk_proxy.Coro.Program.{
  Body, ends, acts, awaits_io, awaits_task, launches, awaits_job, to, overrun, Choice, free_at,
  System, go, resumed, tick, ticks, block_run,
}
use kk_proxy.Coro.Program.Eval.{Run, eval}
use kk_proxy.Coro.Program.Ticks.{Reaches}
use kk_proxy.Coro.Program.Ran.{now}
use kk_proxy.Coro.Program.Laws.{Finished, first, block_run-eval}
use kk_proxy.Coro.Program.Scoped.{IsScoped, add, add-same}
use kk_proxy.Coro.Program.Stops.Once.{StageOf, finishes_once}
use kk_proxy.Coro.Program.Safe.{IsSafe, ticks-IsSafe}

-- What is done with the value: it is seen, and returned.
abbrev with_got : Got ℤ → Body ℤ ℤ
with_got (got v) = acts v (ends (returned v))
with_got _ = ends (returned (pos 0))

abbrev program : Body ℤ ℤ
program = acts (pos 1) (awaits_task (awaits_io (λ r. acts (pos 2) (ends (returned r)))) with_got)

abbrev outcome : Run ℤ ℤ
outcome = (returned (pos 7), [], pos 1 ∷ pos 2 ∷ pos 7 ∷ [], 1)

block_run-eval_example :
    (s s' : System ℤ ℤ) × (block_run 9 program (pos 7 ∷ []) ≡ some s)
    × Reaches s s'
    × Finished 9 outcome s'
unfolding eval
block_run-eval_example = block_run-eval 9 program (pos 7 ∷ []) outcome refl

-- A task that is launched and waits for a completion. The first coroutine waits for another one, awaits
-- the task where it stays before its end, and once more after it.
abbrev launching : Body ℤ ℤ
launching =
    launches 9 (acts (pos 2) (awaits_io (λ r. acts (pos 3) (ends (returned r)))))
      (λ job. acts (pos 4) (awaits_io (λ r. awaits_job job (λ g. awaits_job job with_got))))

-- The entries are completed in this order, and one is free at each tick.
abbrev in_order : ℕ → Choice
in_order i = free_at 0

launching_ends :
    let s = ticks 30 in_order (now (to (Task.resume 0)) (first 9 launching (pos 7 ∷ pos 8 ∷ []))) in
    (s.loop.running ≡ false)
    × (s.loop.world.trace ≡ pos 2 ∷ pos 4 ∷ pos 3 ∷ pos 7 ∷ [])
    × (s.loop.world.memory.finished ≡ 9 ∷ [])
unfolding ticks tick go end_body final_suspend await_ready await_suspend get_value start resumed
    on_wait resume is_daemon set_daemon
launching_ends = (refl, refl, refl)

-- The entry of the launched task is overtaken by the later one.
abbrev overtaking : ℕ → Choice
overtaking i = free_at 1

launching_overtaken :
    let s =
      ticks 30 overtaking (now (to (Task.resume 0)) (first 9 launching (pos 7 ∷ pos 8 ∷ []))) in
    (s.loop.running ≡ false)
    × (s.loop.world.trace ≡ pos 2 ∷ pos 4 ∷ pos 3 ∷ pos 8 ∷ [])
    × (s.loop.world.memory.finished ≡ 9 ∷ [])
unfolding ticks tick go end_body final_suspend await_ready await_suspend get_value start resumed
    on_wait resume is_daemon set_daemon
launching_overtaken = (refl, refl, refl)

-- With a full submission queue both awaiters are ready at once, and `finish` writes through null.
abbrev always_full : ℕ → Choice
always_full i = record { is_full = true; error = none; place = 0 }

launching_overruns :
    let s = ticks 30 always_full (now (to (Task.resume 0)) (first 9 launching [])) in
    (s.loop.world.control ≡ overrun)
    × (s.loop.world.trace ≡ pos 2 ∷ pos 3 ∷ pos 4 ∷ negsuc 10085 ∷ [])
unfolding ticks tick go end_body final_suspend await_ready await_suspend get_value start resumed
    on_wait resume is_daemon set_daemon
launching_overruns = (refl, refl)

abbrev no_jobs : ℕ → Bool
no_jobs a = false

with_got-IsScoped : (J : ℕ → Bool) (g : Got ℤ) → IsScoped J (with_got g)
with_got-IsScoped J (got v) = tt
with_got-IsScoped J (rethrown e) = tt
with_got-IsScoped J bad_access = tt

launching-IsScoped : IsScoped no_jobs launching
launching-IsScoped = (
  λ r. tt,
  λ a r. (add-same a no_jobs, λ g. (add-same a no_jobs, with_got-IsScoped (add a no_jobs))),
)

ticks-IsSafe_example :
    (s : System ℤ ℤ) × (block_run 9 launching (pos 7 ∷ pos 8 ∷ []) ≡ some s)
    × ((n : ℕ) (choices : ℕ → Choice)
        → IsSafe (ticks n choices s).loop.world.control (ticks n choices s).loop.world.memory)
ticks-IsSafe_example = ticks-IsSafe 9 launching (pos 7 ∷ pos 8 ∷ []) launching-IsScoped

finishes_once_example :
    (s : System ℤ ℤ) × (block_run 9 launching (pos 7 ∷ pos 8 ∷ []) ≡ some s)
    × ((n : ℕ) (choices : ℕ → Choice) → StageOf 9 (ticks n choices s))
finishes_once_example = finishes_once 9 launching (pos 7 ∷ pos 8 ∷ []) launching-IsScoped
