-- ===== src/Coro/Task.antt =====
-- Tasks: kkp/kkp-core/include/kkp/coro/task.hpp, with `block_run` and `launch` of
-- kkp/kkp-core/include/kkp/io_context.hpp. Coroutine frames live in a memory and are named by their
-- address; using a frame that was destroyed gives `none`.
pub mod Laws
pub mod Void
use kk_proxy.Common.{
  ℕ, Bool, true, false, Option, none, some, List, [], ◌∷◌, ◌++◌, ◌==◌, if◌then◌else◌,
}
use kk_proxy.Coro.Flag.{is_daemon, set_daemon}

-- The fields of `task_promise<T>`; `done` is what the language keeps of the frame. An exception and an
-- `io_context` are named by numbers.
pub record Frame (V : Type 0) : Type 0 where
  pub caller : Option ℕ
  pub ex : Option ℕ
  pub context : Option ℕ
  pub flags : ℕ
  pub value : Option V
  pub done : Bool

-- `finished`: the contexts whose `finish` was called.
pub record Memory (V : Type 0) : Type 0 where
  pub frames : ℕ → Option (Frame V)
  pub finished : List ℕ

-- The coroutine that an `await_suspend` hands control to.
pub data Next : Type 0 where
  resume : ℕ → Next
  noop : Next

-- How the body of a coroutine ends.
pub data Outcome (V : Type 0) : Type 0 where
  returned : V → Outcome V
  threw : ℕ → Outcome V

-- What awaiting it gives: the value, the exception again, or `std::bad_optional_access`.
pub data Got (V : Type 0) : Type 0 where
  got : V → Got V
  rethrown : ℕ → Got V
  bad_access : Got V

abbrev pub store : {V : Type 0} → ℕ → Option (Frame V) → Memory V → Memory V
store h f m = record m { frames = λ a. if a == h then f else m.frames a }

-- A null context is passed over. (kkp/kkp-core/src/coro/task.cpp)
abbrev pub task_finish : {V : Type 0} → Option ℕ → Memory V → Memory V
task_finish none m = m
task_finish (some c) m = record m { finished = m.finished ++ (c ∷ []) }

-- `final_task_awaiter::await_suspend`
abbrev pub final_frame : {V : Type 0} → ℕ → Frame V → Memory V → Next × Memory V
final_frame h f m = elim f.caller [
  | some c ↦ (resume c, m)
  | none ↦ if is_daemon f.flags then (noop, m) else (noop, store h none (task_finish f.context m))
]

unfoldable pub final_suspend : {V : Type 0} → ℕ → Memory V → Option (Next × Memory V)
final_suspend h m = elim (m.frames h) [ none ↦ none | some f ↦ some (final_frame h f m) ]

-- `base_task_awaiter`: the handle may be null.
unfoldable pub await_ready : {V : Type 0} → Option ℕ → Memory V → Option Bool
await_ready none m = some true
await_ready (some h) m = elim (m.frames h) [ none ↦ none | some f ↦ some f.done ]

abbrev pub suspend_frames :
    {V : Type 0}
    → (caller callee : ℕ) → Option (Frame V)
    → Option (Frame V)
    → Memory V
    → Option (Next × Memory V)
suspend_frames caller callee (some c) (some f) m =
    let f' = record f { caller = some caller; context = c.context } in
    some (if is_daemon f.flags then noop else resume callee, store callee (some f') m)
suspend_frames caller callee _ _ m = none

unfoldable pub await_suspend :
    {V : Type 0} → (caller callee : ℕ) → Memory V → Option (Next × Memory V)
await_suspend caller callee m = suspend_frames caller callee (m.frames caller) (m.frames callee) m

-- `return_value` or `unhandled_exception`, and then the final suspend point is reached.
abbrev pub ended : {V : Type 0} → Outcome V → Frame V → Frame V
ended (returned v) f = record f { value = some v; done = true }
ended (threw e) f = record f { ex = some e; done = true }

unfoldable pub end_body : {V : Type 0} → Outcome V → ℕ → Memory V → Option (Next × Memory V)
unfolding final_suspend
end_body o h m = elim (m.frames h) [
  | none ↦ none
  | some f ↦ final_suspend h (store h (some (ended o f)) m)
]

abbrev pub has_value : {V : Type 0} → Frame V → Bool
has_value f = elim f.value [ none ↦ false | some v ↦ true ]

-- `check_error`, then the value
abbrev pub value_of : {V : Type 0} → Frame V → Got V
value_of f = elim f.ex [
  | some e ↦ rethrown e
  | none ↦ elim f.value [ some v ↦ got v | none ↦ bad_access ]
]

unfoldable pub get_value : {V : Type 0} → ℕ → Memory V → Option (Got V)
get_value h m = elim (m.frames h) [ none ↦ none | some f ↦ some (value_of f) ]

-- `set_context` and `set_daemon` of a task, as `block_run` (false) and `launch` (true) call them before
-- they resume it.
unfoldable pub start : {V : Type 0} → (context : ℕ) → Bool → ℕ → Memory V → Option (Memory V)
start context value h m = elim (m.frames h) [
  | none ↦ none
  | some f ↦
      some
        (store h (some (record f { context = some context; flags = set_daemon f.flags value })) m)
]
