-- ===== src/Coro/Program.antt =====
-- How the parts run a program together: `block_run` of kkp/kkp-core/include/kkp/io_context.hpp starts
-- a coroutine, coroutines hand control to each other through kkp/kkp-core/include/kkp/coro/task.hpp,
-- and kkp/kkp-core/include/kkp/uring/uring_loop.hpp resumes those that wait for a completion. All of
-- it is on one thread: a `tick` is the next thing that the thread does.
pub mod Machines
pub mod Eval
pub mod Scoped
pub mod Invariant
pub mod Safe
pub mod Stops
pub mod Ticks
pub mod Ran
pub mod Awaiting
pub mod Laws
pub use kk_proxy.Coro.Program.Machines.{
  Body, ends, acts, awaits_io, awaits_task, launches, awaits_job, Rest, at_start, with_io,
  with_task, Control, going, to, undefined, overrun, Machine, new_frame, marks, one_frame, Choice,
  free_at, take_out,
}
use kk_proxy.Common.{
  ℕ, zero, suc, Bool, true, false, Option, none, some, List, [], ◌∷◌, ◌++◌, ◌==◌, if◌then◌else◌, ℤ,
  pos, negsuc, length, ltb, ◌&&◌,
}
use kk_proxy.Uring.Loop.{UserData, null, completed, io_data, Cqe, arrived, failed, Loop, on_wait}
use kk_proxy.Coro.Task.{
  Frame, Memory, Next, resume, noop, Outcome, Got, store, await_suspend, await_ready, end_body,
  get_value, start,
}
use kk_proxy.Coro.Handle.{Handles, get_return_object}
use kk_proxy.Coro.Handle

module _ {V E : Type 0} where
  abbrev pub put : ℕ → Rest V E → (ℕ → Option (Rest V E)) → ℕ → Option (Rest V E)
  put h r rests a = if a == h then some r else rests a

  abbrev pub after_end : Option (Next × Memory V) → Machine V E → Machine V E
  after_end none s = record s { control = undefined }
  after_end (some (n, m)) s = record s {
    control = to n;
    memory = m;
    submitted = s.submitted ++ marks s.memory.finished m.finished;
  }

  -- `finish`, where the end of a body has called it, takes an entry of the submission queue.
  abbrev pub guard_finish : (is_full : Bool) → (s t : Machine V E) → Machine V E
  guard_finish is_full s t =
      if is_full && ltb (length s.memory.finished) (length t.memory.finished)
      then record s { control = overrun }
      else t

  -- An awaiter of io_uring is submitted, or with a full submission queue it is ready at once.
  abbrev pub await_io : (is_full : Bool) → ℕ → (ℤ → Body V E) → Machine V E → Machine V E
  await_io true h k s = record s { control = going h (k (negsuc 10085)) }
  await_io false h k s = record s {
    control = to noop;
    rests = put h (with_io k) s.rests;
    submitted = s.submitted ++ (io_data h ∷ []);
  }

  abbrev pub after_suspend : Option (Next × Memory V) → Machine V E → Machine V E
  after_suspend none s = record s { control = undefined }
  after_suspend (some (n, m)) s = record s { control = to n; memory = m }

  -- A coroutine is called at a new frame: `co_await f()` of a task that is a temporary.
  abbrev pub call_task : Body V E → Machine V E → Machine V E
  call_task b s = record s {
    memory = store s.next (some new_frame) s.memory;
    rests = put s.next (at_start b) s.rests;
    next = suc s.next;
  }

  -- `await_ready`, and then `await_suspend`, of the coroutine `h` on the task at `callee`.
  abbrev pub await_task : (h callee : ℕ) → (Got V → Body V E) → Machine V E → Machine V E
  await_task h callee k s =
      let t = record s { rests = put h (with_task callee k) s.rests } in
      elim (await_ready (some callee) t.memory) [
        | none ↦ record t { control = undefined }
        | some ready ↦
            if ready
            then record t { control = to (resume h) }
            else after_suspend (await_suspend h callee t.memory) t
      ]

  -- `launch` sets the context and the flag of the new task, and resumes it.
  abbrev pub launch :
      (h : ℕ) → (ℕ → Body V E) → (job : ℕ) → Option (Memory V) → Machine V E → Machine V E
  launch h k job none s = record s { control = undefined }
  launch h k job (some m) s = record s {
    control = to (resume job);
    memory = m;
    launchers = (h, k job) ∷ s.launchers;
  }

  -- What the coroutine `h` does next.
  unfoldable pub go : (is_full : Bool) → ℕ → Body V E → Machine V E → Machine V E
  go is_full h (ends o) s = guard_finish is_full s (after_end (end_body o h s.memory) s)
  go is_full h (acts e b) s = record s { control = going h b; trace = s.trace ++ (e ∷ []) }
  go is_full h (awaits_io k) s = await_io is_full h k s
  go is_full h (awaits_task b k) s = await_task h s.next k (call_task b s)
  go is_full h (launches context b k) s =
      let t = call_task b s in launch h k s.next (start context true s.next t.memory) t
  go is_full h (awaits_job job k) s = await_task h job k s

  abbrev pub with_value : ℕ → (Got V → Body V E) → Option (Got V) → Control V E
  with_value h k none = undefined
  with_value h k (some g) = going h (k g)

  -- Control comes to `h` from another coroutine, or from its start: `await_resume` is called.
  abbrev pub enter : ℕ → Option (Rest V E) → Memory V → Control V E
  enter h (some (at_start b)) m = going h b
  enter h (some (with_task callee k)) m = with_value h k (get_value callee m)
  enter h _ m = undefined

  -- `data->handle_()` with the result that the loop has stored.
  abbrev pub enter_io : ℕ → ℤ → Option (Rest V E) → Control V E
  enter_io h r (some (with_io k)) = going h (k r)
  enter_io h r _ = undefined

  unfoldable pub resumed : ℕ → ℤ → Machine V E → Machine V E
  resumed p r s = record s { control = enter_io p r (s.rests p) }

-- The loop with the program as its world, and the results that the kernel will give, in the order in which
-- it gives them.
pub record System (V E : Type 0) : Type 0 where
  pub loop : Loop (Machine V E)
  pub results : List ℤ

module _ {V E : Type 0} where
  abbrev pub with_world : System V E → Machine V E → System V E
  with_world s w = record s { loop = record s.loop { world = w } }

  -- What the loop does with the completion of an entry, and those that are not completed. It blocks when the
  -- kernel gives no more results.
  abbrev pub serve_entry : UserData → List UserData → System V E → System V E
  serve_entry (io_data p) ds s = elim s.results [
    | [] ↦ s
    | r ∷ rs ↦ record {
      loop =
          on_wait resumed (arrived (record { user_data = io_data p; res = r }))
            (with_world s (record s.loop.world { submitted = ds })).loop;
      results = rs;
    }
  ]
  serve_entry d ds s = record s {
    loop =
        on_wait resumed (arrived (record { user_data = d; res = pos 0 }))
          (with_world s (record s.loop.world { submitted = ds })).loop;
  }

  -- A wait that succeeds, with a completion of any entry that was submitted. It blocks when nothing was.
  abbrev pub serve : List UserData → (place : ℕ) → System V E → System V E
  serve [] place s = s
  serve (d ∷ ds) place s = serve_entry (take_out d ds place).0 (take_out d ds place).1 s

  -- `io_uring_wait_cqe`. When it fails, it gives no entry.
  abbrev pub wait_cqe : Option ℤ → (place : ℕ) → System V E → System V E
  wait_cqe none place s = serve s.loop.world.submitted place s
  wait_cqe (some code) place s = record s { loop = on_wait resumed (failed code none) s.loop }

  abbrev pub wait : Bool → Choice → System V E → System V E
  wait false c s = s
  wait true c s = wait_cqe c.error c.place s

  -- Control leaves the coroutines: the innermost call of `launch` returns, or the loop waits.
  abbrev pub come_back : List (ℕ × Body V E) → Choice → System V E → System V E
  come_back [] c s = wait s.loop.running c s
  come_back ((h, b) ∷ ls) c s =
      with_world s (record s.loop.world { control = going h b; launchers = ls })

  abbrev pub turn : Control V E → Choice → System V E → System V E
  turn (going h b) c s = with_world s (go c.is_full h b s.loop.world)
  turn (to (resume h)) c s =
      with_world s
        (record s.loop.world { control = enter h (s.loop.world.rests h) s.loop.world.memory })
  turn (to noop) c s = come_back s.loop.world.launchers c s
  turn undefined c s = s
  turn overrun c s = s

  unfoldable pub tick : Choice → System V E → System V E
  unfolding go resumed
  tick c s = turn s.loop.world.control c s

  unfoldable pub ticks : ℕ → (ℕ → Choice) → System V E → System V E
  unfolding tick
  ticks zero choices s = s
  ticks (suc n) choices s = ticks n (λ i. choices (suc i)) (tick (choices 0) s)

  -- `block_run` of it: the coroutine is resumed. `loop_.run()` comes after it has suspended; that
  -- `running_` is set from the start makes no difference, since nothing reads it before.
  abbrev pub run_from :
      Body V E → (results : List ℤ) → Option (ℕ × Handle.Task × Handles V) → Option (System V E)
  run_from b results none = none
  run_from b results (some (h, left, k)) = some (record {
    loop = record {
      running = true;
      results = λ p. pos 0;
      seen = 0;
      world = record {
        control = to (resume h);
        memory = k.memory;
        rests = put 0 (at_start b) (λ a. none);
        next = 1;
        submitted = [];
        trace = [];
        launchers = [];
      };
    };
    results = results;
  })

  unfoldable pub block_run : (context : ℕ) → Body V E → (results : List ℤ) → Option (System V E)
  block_run context b results =
      run_from b results (Handle.block_run context (get_return_object 0) one_frame)
