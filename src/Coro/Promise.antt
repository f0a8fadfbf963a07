-- ===== src/Coro/Promise.antt =====
-- `coro::promise<T>` of kkp/kkp-core/include/kkp/coro/promise.hpp, which a coroutine may `co_await` in
-- place of a task.
use kk_proxy.Common.{ℕ, Bool, false, Option, none, some, if◌then◌else◌}
use kk_proxy.Coro.Task.{Memory, Next, resume, noop, Got, got, rethrown, bad_access, get_value}

-- `task_handle_`
pub record Promise : Type 0 where
  pub task_handle : ℕ

-- The constructor.
abbrev pub promise : ℕ → Promise
promise task_handle = record { task_handle = task_handle }

abbrev pub await_ready : Promise → Bool
await_ready p = false

-- The value, or the end of the program: an exception cannot leave a function that is `noexcept`.
pub data Resumed (V : Type 0) : Type 0 where
  gives : V → Resumed V
  terminates : Resumed V

abbrev pub without_throwing : {V : Type 0} → Got V → Resumed V
without_throwing (got v) = gives v
without_throwing (rethrown e) = terminates
without_throwing bad_access = terminates

module _ {V : Type 0} where
  -- The body is empty, and its result is `void`: the caller stays suspended, and is kept nowhere.
  abbrev pub await_suspend : (caller : ℕ) → Promise → Memory V → Next × Memory V
  await_suspend caller p m = (noop, m)

  abbrev pub await_resume : Promise → Memory V → Option (Resumed V)
  await_resume p m = elim (get_value p.task_handle m) [
    | none ↦ none
    | some g ↦ some (without_throwing g)
  ]

  -- `co_await` of it: whether the caller goes on, and the memory.
  abbrev pub await_promise : (caller : ℕ) → Promise → Memory V → Next × Memory V
  await_promise caller p m = if await_ready p then (resume caller, m) else await_suspend caller p m
