-- ===== src/Coro/Program/Safe.antt =====
-- Programs with launched tasks use no frame that is not there, and resume no coroutine that has ended.
use kk_proxy.Common.{
  ℕ, zero, suc, ◌≡◌, ◌≢◌, refl, sym, subst, ap, ◌∙◌, Bool, true, false, Option, none, some, List,
  [], ◌∷◌, ◌==◌, ℤ, arith, some-injective,
}
use kk_proxy.Uring.Loop.{UserData, null, completed, io_data}
use kk_proxy.Coro.Task.{Frame, Memory, resume, noop}
use kk_proxy.Coro.Task.Laws.{store-same, store-other}
use kk_proxy.Coro.Program.{Body, at_start, Control, going, to, undefined, overrun, Machine, put}
use kk_proxy.Coro.Program.Scoped.{IsScoped}
use kk_proxy.Coro.Program.Invariant.{
  Mode, fresh, ready, parked_task, is_live, set_mode, RestIs, Queue,
}
use kk_proxy.Coro.Program.Invariant.Moves.{set_mode-by, set_mode-same, set_mode-other}
use kk_proxy.Coro.Program.Invariant.Queues.{Queue-take_out}
use kk_proxy.Coro.Program.Invariant.Changes.{by_place}
use kk_proxy.Coro.Program.Invariant.Turns.{HoldsAt, Holds}
use kk_proxy.Coro.Program.{
  System, Choice, take_out, serve_entry, serve, wait_cqe, wait, come_back, turn, tick, ticks,
  block_run, one_frame,
}
use kk_proxy.Uring.Loop.{on_wait, resume_error}
use kk_proxy.Coro.Program.Invariant.Steps.{
  go-Holds, enter-Holds, return-Holds, io-Holds, other-Holds,
}
use kk_proxy.Coro.Program.Laws.{root, first, block_run-first}
use kk_proxy.Coro.Program.Ran.{Point, now}

blank_frame : {V : Type 0} (a : ℕ) → a ≢ 0 → (one_frame {V = V}).memory.frames a ≡ none
blank_frame a n = let e : (a == 0) ≡ false = ground arith in rw e refl

module _ {V E : Type 0} where
  serve_entry-Holds :
      (x : UserData) (ds : List UserData) (s : System V E)
      → ((mode : ℕ → Mode) → Queue mode s.loop.world.submitted → Queue mode (x ∷ ds))
      → s.loop.world.control ≡ to noop
      → HoldsAt (to noop) s.loop.world
      → Holds (serve_entry x ds s).loop.world
  unfolding on_wait
  serve_entry-Holds (io_data p) ds s shift at i = by_results s.results refl
    where
      by_results : (rs : List ℤ) → s.results ≡ rs → Holds (serve_entry (io_data p) ds s).loop.world
      by_results [] q = rw (q, serve_entry) (subst (λ c. HoldsAt c s.loop.world) (sym at) i)
      by_results (r ∷ rs) q = rw (q, serve_entry) (io-Holds p r ds s.loop.world shift i)
  serve_entry-Holds null ds s shift at i =
      subst (λ c. HoldsAt c (record s.loop.world { submitted = ds })) (sym at)
        (other-Holds null ds s.loop.world shift i)
  serve_entry-Holds completed ds s shift at i =
      subst (λ c. HoldsAt c (record s.loop.world { submitted = ds })) (sym at)
        (other-Holds completed ds s.loop.world shift i)

  serve-Holds :
      (ds : List UserData) (place : ℕ) (s : System V E)
      → s.loop.world.submitted ≡ ds
      → s.loop.world.control ≡ to noop
      → HoldsAt (to noop) s.loop.world
      → Holds (serve ds place s).loop.world
  serve-Holds [] place s e at i = subst (λ c. HoldsAt c s.loop.world) (sym at) i
  serve-Holds (d ∷ ds) place s e at i =
      let (x, rest) = take_out d ds place in
      serve_entry-Holds x rest s (λ mode q. Queue-take_out mode d ds place (subst (Queue mode) e q))
        at i

  wait_cqe-Holds :
      (error : Option ℤ) (place : ℕ) (s : System V E)
      → s.loop.world.control ≡ to noop
      → HoldsAt (to noop) s.loop.world
      → Holds (wait_cqe error place s).loop.world
  unfolding on_wait resume_error
  wait_cqe-Holds none place s at i = serve-Holds s.loop.world.submitted place s refl at i
  wait_cqe-Holds (some code) place s at i = subst (λ c. HoldsAt c s.loop.world) (sym at) i

  come_back-Holds :
      (ls : List (ℕ × Body V E)) (choice : Choice) (s : System V E)
      → s.loop.world.launchers ≡ ls
      → s.loop.world.control ≡ to noop
      → HoldsAt (to noop) s.loop.world
      → Holds (come_back ls choice s).loop.world
  come_back-Holds ((h, b) ∷ ls) choice s e at i = return-Holds h b ls s.loop.world e i
  come_back-Holds [] choice s e at i = waits s.loop.running
    where
      waits : (running : Bool) → Holds (wait running choice s).loop.world
      waits true = wait_cqe-Holds choice.error choice.place s at i
      waits false = subst (λ c. HoldsAt c s.loop.world) (sym at) i

  pub turn-Holds :
      (c : Control V E) (choice : Choice) (s : System V E)
      → s.loop.world.control ≡ c
      → HoldsAt c s.loop.world
      → Holds (turn c choice s).loop.world
  turn-Holds (going h b) choice s e i = go-Holds choice.is_full h b s.loop.world i
  turn-Holds (to (resume h)) choice s e i = enter-Holds h s.loop.world i
  turn-Holds (to noop) choice s e i = come_back-Holds s.loop.world.launchers choice s refl e i
  turn-Holds undefined choice s e (mode, known, i) = absurd i.control_is
  turn-Holds overrun choice s e i = subst (λ c. HoldsAt c s.loop.world) (sym e) i

  ticks-Holds :
      (n : ℕ) (choices : ℕ → Choice) (s : System V E)
      → Holds s.loop.world
      → Holds (ticks n choices s).loop.world
  unfolding ticks tick
  ticks-Holds zero choices s i = i
  ticks-Holds (suc n) choices s i =
      ticks-Holds n (λ k. choices (suc k)) (tick (choices 0) s)
        (turn-Holds s.loop.world.control (choices 0) s refl i)

  -- Nothing undefined has happened, unless `finish` found the submission queue full, and a coroutine that
  -- runs has a frame and has not ended.
  abbrev pub IsSafe : Control V E → Memory V → Type 0
  IsSafe (going h b) m = (f : Frame V) × (m.frames h ≡ some f) × (f.done ≡ false)
  IsSafe (to n) m = Unit
  IsSafe undefined m = ⊥
  IsSafe overrun m = Unit

  Holds-IsSafe : (c : Control V E) (w : Machine V E) → HoldsAt c w → IsSafe c w.memory
  Holds-IsSafe (going h b) w (mode, known, i) = i.live h (rw (i.control_is.0) refl)
  Holds-IsSafe (to n) w i = tt
  Holds-IsSafe undefined w (mode, known, i) = i.control_is
  Holds-IsSafe overrun w i = tt

  pub first-Holds :
      (context : ℕ) (b : Body V E) (rs : List ℤ)
      → IsScoped (λ a. false) b
      → Holds (now (to (resume 0)) (first context b rs)).loop.world
  first-Holds context b rs scoped =
      let blank : ℕ → Mode = λ a. fresh in
      let p : Point V E = first context b rs in
      let none_else : (a : ℕ) → a ≢ 0 → p.m.frames a ≡ none =
        λ a n. store-other 0 a (some (root context)) one_frame.memory n ∙ blank_frame a n in
      let at_root : p.m.frames 0 ≡ some (root context) =
        store-same 0 (some (root context)) one_frame.memory in
      (
        set_mode 0 ready blank,
        (λ a. false),
        record {
          control_is = set_mode-same 0 ready blank;
          live =
              set_mode-by 0 ready blank
                (λ a m.
                  is_live m ≡ true → (f : Frame V) × (p.m.frames a ≡ some f) × (f.done ≡ false))
                (λ _. (root context, at_root, refl)) (λ a n l. cc);
          kept = λ a l u. absurd (omega (arith, l, u));
          unused = λ a l. set_mode-other 0 ready blank a (λ e. absurd (omega (arith, e, l)));
          callers =
              by_place
                (λ d.
                  (f : Frame V) (h : ℕ)
                  → p.m.frames d ≡ some f
                  → f.done ≡ false
                  → f.caller ≡ some h
                  → set_mode 0 ready blank h ≡ parked_task d)
                0 (λ f h e y w. cc (ap (λ z. z.caller) (some-injective _ _ (sym at_root ∙ e)) ∙ w))
                (λ d n f h e y w. cc (sym (none_else d n) ∙ e));
          rests_are =
              set_mode-by 0 ready blank
                (λ a m. RestIs (λ x. false) 1 m (put 0 (at_start b) (λ z. none) a)) scoped
                (λ a n. tt);
          jobs = λ d j. cc;
          queue = tt;
          stack = tt;
          started = omega arith;
        },
      )

  -- A program that makes, awaits and launches tasks, and awaits those it launched where they stay,
  -- in any order, and no other address; the task objects that `launch` returns are kept. Whatever
  -- results the kernel gives, in whatever order it completes the entries, and whether an entry is free or
  -- the submission queue is full at any tick, and whichever waits of the loop fail: after any number of
  -- ticks of its `block_run` nothing undefined has happened, but that `finish` with a full submission
  -- queue writes through a null pointer, where the run stops. So no frame was used that is not there,
  -- no coroutine was resumed at a place where it does not wait, and a coroutine that runs has its
  -- frame, and has not ended.
  pub ticks-IsSafe :
      (context : ℕ) (b : Body V E) (rs : List ℤ)
      → IsScoped (λ a. false) b
      → (s : System V E) × (block_run context b rs ≡ some s)
        × ((n : ℕ) (choices : ℕ → Choice)
            → IsSafe (ticks n choices s).loop.world.control (ticks n choices s).loop.world.memory)
  ticks-IsSafe context b rs scoped =
      let s = now (to (resume 0)) (first context b rs) in
      (
        s,
        block_run-first context b rs,
        λ n choices.
            let w = (ticks n choices s).loop.world in
            Holds-IsSafe w.control w (ticks-Holds n choices s (first-Holds context b rs scoped)),
      )
