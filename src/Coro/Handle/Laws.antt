-- ===== src/Coro/Handle/Laws.antt =====
-- A coroutine handle has one owner, and a frame is destroyed at most once by the tasks.
use kk_proxy.Common.{ℕ, ◌+◌, ◌≤◌, Option, none, some, List, ◌==◌, if◌then◌else◌, arith}
use kk_proxy.Objects.{IsOwner, Step, steps, holders, creations}
use kk_proxy.Objects.Laws.{total}
use kk_proxy.Objects.Laws
use kk_proxy.Coro.Handle.{Task, Handles, Call, taking, destroying, release, give, call, task_class}

module _ (h : ℕ) where
  abbrev pub is_handle : ℕ → ℕ
  is_handle g = if g == h then 1 else 0

  abbrev pub held : Task → ℕ
  held t = elim t.handle [ none ↦ 0 | some g ↦ is_handle g ]

  -- how often the frame at `h` was destroyed, and its handle given away
  abbrev pub given_up : {V : Type 0} → Handles V → ℕ
  given_up k = holders is_handle k.destroyed + holders is_handle k.taken

  given_up-release :
      {V : Type 0} (g : Option ℕ) (k : Handles V)
      → given_up (release g k) ≤ held (record { handle = g }) + given_up k
  given_up-release none k = omega arith
  given_up-release (some g) k = omega arith

  holders-give :
      (g : Option ℕ) (hs : List ℕ)
      → holders is_handle (give g hs) ≤ held (record { handle = g }) + holders is_handle hs
  holders-give none hs = omega arith
  holders-give (some g) hs = omega arith

  call_owner :
      {V : Type 0} (x : Call) (t : Task) (k : Handles V)
      → let (t', k') = call x t k in held t' + given_up k' ≤ held t + given_up k
  call_owner taking t k = omega (arith, holders-give t.handle k.taken)
  call_owner destroying t k = omega (arith, given_up-release t.handle k)

  pub task-IsOwner : {V : Type 0} → IsOwner (task_class {V = V}) held given_up
  task-IsOwner = record {
    move_owner = λ t. omega arith;
    assign_owner = λ s t k. omega (arith, given_up-release s.handle k);
    call_owner = call_owner;
  }

  -- Whatever a program does with its tasks (makes, moves, assigns or destroys them, or takes their
  -- handles, in any order), the tasks that hold a handle, the times its frame was destroyed by them and
  -- the times it was taken are together never more than at the start and the tasks made of it since.
  pub handle_total :
      {V : Type 0} (as' : List (Step Task Call)) (st : List Task × Handles V)
      → total held given_up (steps task_class as' st) ≤ total held given_up st + creations held as'
  handle_total as' st = Laws.total-steps task_class held given_up task-IsOwner as' st
