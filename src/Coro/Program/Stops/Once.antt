-- ===== src/Coro/Program/Stops/Once.antt =====
-- The loop of a program with launched tasks stops behind the end of its first coroutine.
use kk_proxy.Common.{
  ℕ, zero, suc, ◌≡◌, inl, inr, refl, subst, Bool, true, false, Option, none, some, List, [], ◌∷◌, ℤ,
}
use kk_proxy.Uring.Loop.{UserData, null, completed, io_data, on_wait, resume_error}
use kk_proxy.Coro.Task.{resume, noop}
use kk_proxy.Coro.Task.Laws.{store-same}
use kk_proxy.Coro.Program.{
  Body, Control, going, to, undefined, overrun, System, Choice, take_out, serve_entry, serve,
  wait_cqe, wait, come_back, turn, tick, ticks, block_run, resumed, one_frame,
}
use kk_proxy.Coro.Program.Scoped.{IsScoped}
use kk_proxy.Coro.Program.Invariant.Turns.{HoldsAt, Holds}
use kk_proxy.Coro.Program.Safe.{turn-Holds, first-Holds}
use kk_proxy.Coro.Program.Ran.{now}
use kk_proxy.Coro.Program.Laws.{root, first, block_run-first}
use kk_proxy.Coro.Program.Stops.{IsUnmarked, IsUnmarked-take_out, StageAt}
use kk_proxy.Coro.Program.Stops.Go.{go-Stage}

module _ {V E : Type 0} (context : ℕ) where
  abbrev pub StageOf : System V E → Type 0
  StageOf s = StageAt context s.loop.running s.loop.world.memory s.loop.world.submitted

  serve_entry-Stage :
      (x : UserData) (ds : List UserData) (s : System V E)
      → (IsUnmarked s.loop.world.submitted → IsUnmarked (x ∷ ds))
      → StageOf s
      → StageOf (serve_entry x ds s)
  unfolding on_wait resumed
  serve_entry-Stage (io_data p) ds s shift g = by_results s.results refl
    where
      by_results : (rs : List ℤ) → s.results ≡ rs → StageOf (serve_entry (io_data p) ds s)
      by_results [] q = rw (q, serve_entry) g
      by_results (r ∷ rs) q =
          rw (q, serve_entry)
            (elim g [ inl (t, x, y, z) ↦ inl (t, x, (shift y).1, z) | inr ended' ↦ inr ended' ])
  serve_entry-Stage null ds s shift (inl (t, x, y, z)) = inl (t, x, (shift y).1, z)
  serve_entry-Stage null ds s shift (inr x) = inr x
  serve_entry-Stage completed ds s shift (inl (t, x, y, z)) = absurd ((shift y).0 refl)
  serve_entry-Stage completed ds s shift (inr x) = inr x

  serve-Stage :
      (ds : List UserData) (place : ℕ) (s : System V E)
      → s.loop.world.submitted ≡ ds
      → StageOf s
      → StageOf (serve ds place s)
  serve-Stage [] place s e g = g
  serve-Stage (d ∷ ds) place s e g =
      let (x, rest) = take_out d ds place in
      serve_entry-Stage x rest s (λ u. IsUnmarked-take_out d ds place (subst IsUnmarked e u)) g

  wait_cqe-Stage :
      (error : Option ℤ) (place : ℕ) (s : System V E) → StageOf s → StageOf (wait_cqe error place s)
  unfolding on_wait resume_error
  wait_cqe-Stage none place s g = serve-Stage s.loop.world.submitted place s refl g
  wait_cqe-Stage (some code) place s g = g

  turn-Stage :
      (c : Control V E) (choice : Choice) (s : System V E)
      → HoldsAt c s.loop.world
      → StageOf s
      → StageOf (turn c choice s)
  turn-Stage (going h b) choice s i g =
      go-Stage context s.loop.running choice.is_full h b s.loop.world i g
  turn-Stage (to (resume h)) choice s i g = g
  turn-Stage undefined choice s i g = g
  turn-Stage overrun choice s i g = g
  turn-Stage (to noop) choice s i g = back s.loop.world.launchers
    where
      waits : (b : Bool) → StageOf (wait b choice s)
      waits true = wait_cqe-Stage choice.error choice.place s g
      waits false = g

      back : (ls : List (ℕ × Body V E)) → StageOf (come_back ls choice s)
      back [] = waits s.loop.running
      back ((h, b) ∷ ls) = g

  ticks-Stage :
      (n : ℕ) (choices : ℕ → Choice) (s : System V E)
      → Holds s.loop.world
      → StageOf s
      → StageOf (ticks n choices s)
  unfolding ticks tick
  ticks-Stage zero choices s i g = g
  ticks-Stage (suc n) choices s i g =
      ticks-Stage n (λ k. choices (suc k)) (tick (choices 0) s)
        (turn-Holds s.loop.world.control (choices 0) s refl i)
        (turn-Stage s.loop.world.control (choices 0) s i g)

  -- A program that makes, awaits and launches tasks, and awaits those it launched where they stay,
  -- in any order, and no other address; the task objects that `launch` returns are kept. Whatever
  -- results the kernel gives, in whatever order it completes the entries, and whether an entry is free or
  -- the submission queue is full at any tick, and whichever waits of the loop fail: after any number of
  -- ticks of its `block_run` the first coroutine has not ended, its frame is there, no `finish` has
  -- submitted a mark and the loop runs; or it has ended, its frame is destroyed, and `finish` was called
  -- exactly once, of its own context. A `finish` that finds the submission queue full writes through a
  -- null pointer, and the run stops before it. So the loop never stops before the end of the first
  -- coroutine, and no launched task stops it.
  pub finishes_once :
      (b : Body V E) (rs : List ℤ)
      → IsScoped (λ a. false) b
      → (s : System V E) × (block_run context b rs ≡ some s)
        × ((n : ℕ) (choices : ℕ → Choice) → StageOf (ticks n choices s))
  finishes_once b rs scoped =
      let s = now (to (resume 0)) (first context b rs) in
      let begins : StageOf s =
        inl (refl, refl, tt, store-same 0 (some (root context)) one_frame.memory) in
      (
        s,
        block_run-first context b rs,
        λ n choices. ticks-Stage n choices s (first-Holds context b rs scoped) begins,
      )
