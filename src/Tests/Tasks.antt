-- ===== src/Tests/Tasks.antt =====
-- Runs of kkp/kkp-core/include/kkp/coro/task.hpp: a task at address 2, and its caller at 1.
use kk_proxy.Common.{
  List, ℕ, inl, inr, Bool-cases, ◌≢◌, ◌⊎◌, ◌==◌, ◌≡◌, refl, true, false, none, some, [], ◌∷◌,
  if◌then◌else◌, arith,
}
use kk_proxy.Coro.Flag.{is_daemon, set_daemon}
use kk_proxy.Coro.Task.{
  Frame, Memory, Next, resume, noop, Outcome, returned, threw, got, rethrown, await_suspend,
  await_ready, end_body, get_value, start,
}
use kk_proxy.Coro.Task.Void.{VoidPromise, ended_void, as_frame}
use kk_proxy.Coro.Task.Void
use kk_proxy.Coro.Jobs.{
  Step, makes, launches, awaits, ends, awaits_promise, completes, step, launch, await_task, Runs,
  stops, goes, nexts_of,
}
use kk_proxy.Coro.Jobs.Callers.{caller_of, steps_in}
use kk_proxy.Coro.Jobs.Wakes.{Runs-Cause}
use kk_proxy.Coro.Jobs.Sleeps.{resumes, promise_sleeps}
use kk_proxy.Coro.Promise.{promise, gives, terminates, await_resume}
use mathlib.Core.List.{Memᴰ}
use kk_proxy.Coro.Jobs.Join.{launched_join}
use kk_proxy.Coro.Task.Laws.{await_round, started_ends}

abbrev created : Frame ℕ
created = record { caller = none; ex = none; context = none; flags = 0; value = none; done = false }

abbrev running : Frame ℕ
running = record created { context = some 9 }

abbrev two_tasks : Memory ℕ
two_tasks = record {
  frames = λ a. if a == 1 then some running else if a == 2 then some created else none;
  finished = [];
}

await_round_example :
    (m₁ m₂ : Memory ℕ) × (await_suspend 1 2 two_tasks
      ≡ some (if is_daemon 0 then noop else resume 2, m₁))
    × (end_body (returned 42) 2 m₁ ≡ some (resume 1, m₂))
    × (get_value 2 m₂ ≡ some (got 42))
    × (await_ready (some 2) m₂ ≡ some true)
    × (m₂.frames 1 ≡ some running)
    × (m₂.finished ≡ [])
await_round_example =
    await_round two_tasks 1 2 running created (returned 42) (λ h. absurd (omega (arith, h))) refl
      refl refl

started_ends_example :
    (m₁ m₂ : Memory ℕ) × (start 9 false 2 two_tasks ≡ some m₁)
    × (end_body (returned 42) 2 m₁ ≡ some (noop, m₂))
    × (m₂.finished ≡ 9 ∷ [])
    × (await_ready (some 2) m₂ ≡ none)
    × (get_value 2 m₂ ≡ none)
started_ends_example =
    started_ends two_tasks 9 2 created (returned 42) false refl refl refl (omega arith)

-- The task 2 is made and launched by the task 1, which awaits it before its end, and once more after it.
abbrev no_tasks : Memory ℕ
no_tasks = record { frames = λ a. none; finished = [] }

abbrev apply : Step ℕ → Memory ℕ → Memory ℕ
apply s m = elim (step s m) [ none ↦ m | some (n, m') ↦ m' ]

abbrev made : Memory ℕ
made = apply (makes 2) (apply (makes 1) no_tasks)

abbrev over : Memory ℕ
over =
    apply (awaits 1 2)
      (apply (ends (returned 42) 2) (apply (awaits 1 2) (apply (launches 9 2) made)))

abbrev job_log : List (Step ℕ × Next)
job_log =
    (makes 1, noop)
    ∷ (makes 2, noop)
    ∷ (launches 9 2, resume 2)
    ∷ (awaits 1 2, noop)
    ∷ (completes 2, resume 2)
    ∷ (ends (returned 42) 2, resume 1)
    ∷ (awaits 1 2, resume 1)
    ∷ []

job_log-Runs : Runs no_tasks job_log over
unfolding step launch await_task start await_ready await_suspend end_body is_daemon set_daemon
job_log-Runs = goes _ _ refl (
    goes _ _ refl
      (goes _ _ refl (goes _ _ refl (goes _ _ refl (goes _ _ refl (goes _ _ refl stops))))))

launched_join_example :
    (nexts_of 2 job_log ≡ noop ∷ resume 2 ∷ noop ∷ resume 1 ∷ resume 1 ∷ [])
    × (get_value 2 over ≡ some (got 42))
    × (await_ready (some 2) over ≡ some true)
launched_join_example = launched_join 9 2 (returned 42) (1 ∷ []) (1 ∷ []) job_log-Runs refl

abbrev void_promise : VoidPromise
void_promise = record {
  caller = some 1;
  ex = none;
  context = some 9;
  flags = 1;
  value_flag = false;
  done = false;
}

-- The exception of a task<void> stays in its promise.
void_threw : Void.get_value (ended_void (threw 3) void_promise) ≡ rethrown 3
void_threw = refl

-- In that run the task 1 goes on behind its second `co_await`, since the task 2 had ended before.
abbrev job_front : List (Step ℕ × Next)
job_front =
    (makes 1, noop)
    ∷ (makes 2, noop)
    ∷ (launches 9 2, resume 2)
    ∷ (awaits 1 2, noop)
    ∷ (completes 2, resume 2)
    ∷ (ends (returned 42) 2, resume 1)
    ∷ []

Runs-Cause_example :
    ((◌≡◌ {A = ℕ} 1 1) × ((o : Outcome ℕ) × Memᴰ (ends o 2) (steps_in job_front)))
    ⊎ (◌≡◌ {A = ℕ} 2 1)
Runs-Cause_example = Runs-Cause 1 job_front (awaits 1 2) (λ d. refl) job_log-Runs

-- The task 1 awaits a promise of the task 2, which is launched and ends.
abbrev asleep : Memory ℕ
asleep = apply (ends (returned 42) 2) (apply (launches 9 2) (apply (awaits_promise 1 2) made))

abbrev promise_log : List (Step ℕ × Next)
promise_log =
    (awaits_promise 1 2, noop) ∷ (launches 9 2, resume 2) ∷ (ends (returned 42) 2, noop) ∷ []

promise_log-Runs : Runs made promise_log asleep
unfolding step launch start end_body is_daemon set_daemon
promise_log-Runs = goes _ _ refl (goes _ _ refl (goes _ _ refl stops))

no_caller : (d : ℕ) → caller_of (made.frames d) ≢ some 1
unfolding step
no_caller d e = elim (Bool-cases (d == 2)) [
  | inl y ↦ cc (rw y at e)
  | inr y ↦ elim (Bool-cases (d == 1)) [ inl z ↦ cc (rw (y, z) at e) | inr z ↦ cc (rw (y, z) at e) ]
]

-- The value is there, but nobody takes it; and if the task threw, taking it would end the program.
promise_value :
    (await_resume (promise 2) asleep ≡ some (gives 42))
    × (await_resume (promise 2) (apply (ends (threw 3) 2) (apply (launches 9 2) made))
        ≡ some terminates)
unfolding step launch start end_body is_daemon set_daemon get_value
promise_value = (refl, refl)

promise_sleeps_example : resumes 1 promise_log ≡ false
promise_sleeps_example = promise_sleeps 1 2 no_caller promise_log-Runs refl
