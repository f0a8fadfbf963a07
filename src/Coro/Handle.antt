-- ===== src/Coro/Handle.antt =====
-- `task<T>` of kkp/kkp-core/include/kkp/coro/task.hpp as the owner of a coroutine handle, what
-- kkp/kkp-core/include/kkp/io_context.hpp does with a task, and `this_context`.
pub mod Laws
use kk_proxy.Common.{ℕ, Bool, true, false, Option, none, some, List, [], ◌∷◌}
use kk_proxy.Objects.{Class}
use kk_proxy.Coro.Flag
use kk_proxy.Coro.Task.{Frame, Memory, store, start}

-- `task<T>`: its `handle_`, `none` for a null one.
pub record Task : Type 0 where
  pub handle : Option ℕ

-- The frames, with the handles that `destroy()` was called on and those that `take_handle` gave away.
pub record Handles (V : Type 0) : Type 0 where
  pub memory : Memory V
  pub destroyed : List ℕ
  pub taken : List ℕ

-- The member functions that end the ownership.
pub data Call : Type 0 where
  taking destroying : Call

-- The constructor.
abbrev pub task : Option ℕ → Task
task handle = record { handle = handle }

-- `get_return_object`: the task of a new coroutine.
abbrev pub get_return_object : ℕ → Task
get_return_object h = task (some h)

-- The move constructor.
abbrev pub move_construct : Task → Task × Task
move_construct other = (record { handle = other.handle }, record { handle = none })

abbrev pub give : Option ℕ → List ℕ → List ℕ
give none hs = hs
give (some h) hs = h ∷ hs

module _ {V : Type 0} where
  -- handle.destroy()
  abbrev pub destroy_frame : ℕ → Handles V → Handles V
  destroy_frame h k = record k { memory = store h none k.memory; destroyed = h ∷ k.destroyed }

  -- if (handle_)
  abbrev pub release : Option ℕ → Handles V → Handles V
  release none k = k
  release (some h) k = destroy_frame h k

  abbrev pub move_assign : Task → Task → Handles V → Task × Task × Handles V
  move_assign this other k =
      let (new, left) = move_construct other in (new, left, release this.handle k)

  -- ~task: the place of a destroyed task holds nothing.
  abbrev pub destroy : Task → Handles V → Task × Handles V
  destroy this k = (record { handle = none }, release this.handle k)

  -- The handle, and a task that holds none.
  abbrev pub take_handle : Task → Handles V → Option ℕ × Task × Handles V
  take_handle this k =
      (this.handle, record { handle = none }, record k { taken = give this.handle k.taken })

  abbrev pub call : Call → Task → Handles V → Task × Handles V
  call taking t k = let (h, t', k') = take_handle t k in (t', k')
  call destroying t k = destroy t k

  abbrev pub task_class : Class Task (Handles V) Call
  task_class = record { move = move_construct; assign = move_assign; call = call }

  -- The three setters, on the frame of the handle; a null handle is undefined.
  abbrev pub on_frame : (Frame V → Frame V) → ℕ → Memory V → Option (Memory V)
  on_frame f h m = elim (m.frames h) [ none ↦ none | some x ↦ some (store h (some (f x)) m) ]

  abbrev pub on_handle : (Frame V → Frame V) → Option ℕ → Memory V → Option (Memory V)
  on_handle f none m = none
  on_handle f (some h) m = on_frame f h m

  abbrev pub set_context : ℕ → Task → Memory V → Option (Memory V)
  set_context context t m = on_handle (λ f. record f { context = some context }) t.handle m

  abbrev pub set_daemon : Bool → Task → Memory V → Option (Memory V)
  set_daemon value t m =
      on_handle (λ f. record f { flags = Flag.set_daemon f.flags value }) t.handle m

  abbrev pub set_sub_job : Bool → Task → Memory V → Option (Memory V)
  set_sub_job value t m =
      on_handle (λ f. record f { flags = Flag.set_sub_job f.flags value }) t.handle m

  -- What `block_run` (false), `launch` and `launch_detached` (true) do before they resume the coroutine:
  -- the handle to resume, with what is left of the task. A null handle is undefined.
  abbrev pub start_handle :
      ℕ → Bool → Option ℕ → Handles V → Option (Memory V) → Option (ℕ × Task × Handles V)
  start_handle context value (some h) k (some m) =
      some (h, record { handle = none }, record k { memory = m; taken = h ∷ k.taken })
  start_handle context value _ k _ = none

  abbrev pub started : ℕ → Bool → Task → Handles V → Option (Memory V)
  started context value t k = elim t.handle [
    | none ↦ none
    | some h ↦ start context value h k.memory
  ]

  unfoldable pub block_run : ℕ → Task → Handles V → Option (ℕ × Task × Handles V)
  block_run context t k = start_handle context false t.handle k (started context false t k)

  -- `block_run` of a function that makes the task.
  unfoldable pub block_run_f :
      ℕ → (Handles V → Task × Handles V) → Handles V → Option (ℕ × Task × Handles V)
  unfolding block_run
  block_run_f context f k = let (t, k') = f k in block_run context t k'

  unfoldable pub launch_detached : ℕ → Task → Handles V → Option (ℕ × Task × Handles V)
  launch_detached context t k = start_handle context true t.handle k (started context true t k)

  -- The task that it returns holds the handle again.
  unfoldable pub launch : ℕ → Task → Handles V → Option (ℕ × Task × Task × Handles V)
  unfolding launch_detached
  launch context t k = elim (launch_detached context t k) [
    | none ↦ none
    | some (h, left, k') ↦ some (h, get_return_object h, left, k')
  ]

  -- `co_await this_context`: the awaiter is one object for all coroutines. It takes the context of the
  -- promise, does not suspend, and gives it back at once. The second result is the awaiter's field.
  unfoldable pub this_context : (caller : ℕ) → Memory V → Option (Option ℕ × Option ℕ)
  this_context caller m = elim (m.frames caller) [
    | none ↦ none
    | some f ↦ some (f.context, f.context)
  ]
