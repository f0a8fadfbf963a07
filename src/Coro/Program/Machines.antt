-- ===== src/Coro/Program/Machines.antt =====
-- The states of a program that runs: what is left of the body of each coroutine of
-- kkp/kkp-core/include/kkp/coro/task.hpp, where the suspended ones go on, and what is open at a tick.
use kk_proxy.Common.{
  ℕ, zero, suc, ◌-◌, ◌==◌, if◌then◌else◌, Bool, false, Option, none, some, List, [], ◌∷◌, ℤ, length,
  replicate,
}
use kk_proxy.Uring.Loop.{UserData, completed}
use kk_proxy.Coro.Task.{Frame, Memory, Next, Outcome, Got}
use kk_proxy.Coro.Handle.{Handles}

-- What is left of the body of a coroutine: it ends, does something that can be seen, awaits an awaiter
-- of io_uring and goes on with its result, awaits a new task and goes on with what that gives, launches a
-- new task on a context and goes on with its handle, or awaits such a task where it stays. The task
-- object that `launch` returns is kept: its destructor, which destroys the frame even of a coroutine that
-- has not ended, is not called.
pub data Body (V E : Type 0) : Type 0 where
  ends : Outcome V → Body V E
  acts : E → Body V E → Body V E
  awaits_io : (ℤ → Body V E) → Body V E
  awaits_task : Body V E → (Got V → Body V E) → Body V E
  launches : (context : ℕ) → Body V E → (ℕ → Body V E) → Body V E
  awaits_job : (job : ℕ) → (Got V → Body V E) → Body V E

-- Where a suspended coroutine goes on: at its initial suspend point, or at a `co_await`.
pub data Rest (V E : Type 0) : Type 0 where
  at_start : Body V E → Rest V E
  with_io : (ℤ → Body V E) → Rest V E
  with_task : (callee : ℕ) → (Got V → Body V E) → Rest V E

-- A coroutine runs, or an `await_suspend` has told which is next, and after `noop` the thread is back in
-- the loop. `undefined`: a frame was used that is not there, or a coroutine was resumed
-- where it does not wait. `overrun`: `finish` found the submission queue full, and wrote through the null
-- pointer that it got for an entry.
pub data Control (V E : Type 0) : Type 0 where
  going : (handle : ℕ) → Body V E → Control V E
  to : Next → Control V E
  undefined : Control V E
  overrun : Control V E

-- `next` is the address of the next new frame; `submitted` are the user data of the entries that the
-- kernel has not completed yet. An `io_data` lies in the frame that awaits, and is named by it.
-- `launchers`: the coroutines that are in a call of `launch`, the innermost first; a launched task is
-- resumed inside of that call, which returns when the thread comes back from it.
pub record Machine (V E : Type 0) : Type 0 where
  pub control : Control V E
  pub memory : Memory V
  pub rests : ℕ → Option (Rest V E)
  pub next : ℕ
  pub submitted : List UserData
  pub trace : List E
  pub launchers : List (ℕ × Body V E)

-- The promise of a new coroutine, which is suspended at its start.
abbrev pub new_frame : {V : Type 0} → Frame V
new_frame = record {
  caller = none;
  ex = none;
  context = none;
  flags = 0;
  value = none;
  done = false;
}

-- Each `finish` submits an entry with the mark. (kkp/kkp-core/src/coro/task.cpp)
abbrev pub marks : (before after : List ℕ) → List UserData
marks before after = replicate (length after - length before) completed

-- The memory with one new coroutine, at the address 0.
abbrev pub one_frame : {V : Type 0} → Handles V
one_frame = record {
  memory = record { frames = λ a. if a == 0 then some new_frame else none; finished = [] };
  destroyed = [];
  taken = [];
}

-- What is open at a tick: whether the submission queue is full, with what error the wait of the loop fails,
-- if it does, and at which place of those that were submitted the entry is that the kernel completes next.
pub record Choice : Type 0 where
  pub is_full : Bool
  pub error : Option ℤ
  pub place : ℕ

abbrev pub free_at : ℕ → Choice
free_at p = record { is_full = false; error = none; place = p }

-- The entry at a place, or the last one, and the others.
abbrev pub take_out : UserData → List UserData → (place : ℕ) → UserData × List UserData
take_out d [] place = (d, [])
take_out d (x ∷ ds) zero = (d, x ∷ ds)
take_out d (x ∷ ds) (suc place) = let (y, rest) = take_out x ds place in (y, d ∷ rest)
