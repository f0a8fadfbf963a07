-- ===== src/Coro/Program/Invariant/Steps.antt =====
-- Each way in which control changes keeps the invariant.
use kk_proxy.Common.{
  ℕ, Bool, ◌≡◌, refl, sym, subst, ◌∙◌, Option, none, some, List, ◌∷◌, ℤ, length, arith,
}
use kk_proxy.Uring.Loop.{UserData, io_data}
use kk_proxy.Coro.Task.{resume, noop, value_of}
use kk_proxy.Coro.Task.Laws.{get_value_lem}
use kk_proxy.Coro.Program.{
  Body, ends, acts, awaits_io, awaits_task, launches, awaits_job, Rest, at_start, with_io,
  with_task, going, to, Machine, go, enter,
}
use kk_proxy.Coro.Program.Invariant.{
  Mode, running, ready, stacked, parked_io, set_mode, Queue, RestIs, Inv,
}
use kk_proxy.Coro.Program.Invariant.Moves.{set_mode-same, aim, relocate, remode}
use kk_proxy.Coro.Program.Invariant.Queues.{pop, requeue}
use kk_proxy.Coro.Program.Invariant.Turns.{HoldsAt, Holds, go-acts, go-awaits_io, go-awaits_task}
use kk_proxy.Coro.Program.Invariant.Launching.{go-launches, go-awaits_job}
use kk_proxy.Coro.Program.Invariant.Ending.{go-ends}
use kk_proxy.Coro.Program.{enter_io, with_value, resumed}

module _ {V E : Type 0} where
  pub go-Holds :
      (full : Bool) (h : ℕ) (b : Body V E) (s : Machine V E)
      → HoldsAt (going h b) s
      → Holds (go full h b s)
  go-Holds full h (ends o) s i = go-ends full h o s i
  go-Holds full h (acts e b) s i = go-acts full h e b s i
  go-Holds full h (awaits_io k) s i = go-awaits_io full h k s i
  go-Holds full h (awaits_task b k) s i = go-awaits_task full h b k s i
  go-Holds full h (launches context b k) s i = go-launches full h context b k s i
  go-Holds full h (awaits_job job k) s i = go-awaits_job full h job k s i

  -- A coroutine that was ready gets control.
  pub enter-Holds :
      (h : ℕ) (s : Machine V E)
      → HoldsAt (to (resume h)) s
      → HoldsAt (enter h (s.rests h) s.memory) s
  enter-Holds h s (mode, known, i) =
      by_rest (s.rests h)
        (subst (λ x. RestIs known s.next x (s.rests h)) i.control_is (i.rests_are h))
    where
      now : mode h ≡ ready
      now = i.control_is

      runs :
          Inv
            (set_mode h running mode)
            known
            (to noop)
            s.memory.frames
            s.rests
            s.next
            s.submitted
            s.launchers
      runs =
          remode h running s.rests (rw now refl) (λ d f p q r. cc (sym now ∙ i.callers d f h p q r))
            tt (λ a q. refl) (λ e. cc (sym now ∙ e)) (λ n l e. cc (sym now ∙ e)) i

      by_rest :
          (r : Option (Rest V E)) → RestIs known s.next ready r → HoldsAt (enter h r s.memory) s
      by_rest (some (at_start b)) q =
          (set_mode h running mode, known, aim (going h b) (set_mode-same h running mode, q) runs)
      by_rest (some (with_task d k)) (p, l, q) =
          let (f, e, _) = i.kept d p l in
          subst (λ g. HoldsAt (with_value h k g) s) (sym (get_value_lem d f s.memory e))
            (
              set_mode h running mode,
              known,
              aim (going h (k (value_of f))) (set_mode-same h running mode, q (value_of f)) runs,
            )
      by_rest (some (with_io k)) q = elim q [ ]
      by_rest none q = elim q [ ]

  -- The innermost call of `launch` returns.
  pub return-Holds :
      (h : ℕ) (b : Body V E) (ls : List (ℕ × Body V E)) (s : Machine V E)
      → s.launchers ≡ (h, b) ∷ ls
      → HoldsAt (to noop) s
      → Holds (record s { control = going h b; launchers = ls })
  return-Holds h b ls s at (mode, known, i) = (
    set_mode h running mode,
    known,
    aim (going h b) (set_mode-same h running mode, all.stack.1)
        (remode h running s.rests (rw now refl) (λ d f p q r. cc (sym now ∙ i.callers d f h p q r))
          tt (λ a q. refl) (λ e. cc (sym now ∙ e))
          (λ n l e.
            let same : stacked (length ls) ≡ stacked n = sym now ∙ e in
            let equal : length ls ≡ n = cc same in absurd (omega (arith, equal, l)))
          (pop h b all)),
  )
    where
      all : Inv mode known (to noop) s.memory.frames s.rests s.next s.submitted ((h, b) ∷ ls)
      all = subst (λ x. Inv mode known (to noop) s.memory.frames s.rests s.next s.submitted x) at i

      now : mode h ≡ stacked (length ls)
      now = all.stack.0

  -- An entry is completed.
  pub io-Holds :
      (p : ℕ) (r : ℤ) (ds : List UserData) (s : Machine V E)
      → ((mode : ℕ → Mode) → Queue mode s.submitted → Queue mode (io_data p ∷ ds))
      → HoldsAt (to noop) s
      → Holds (resumed p r (record s { submitted = ds }))
  unfolding resumed
  io-Holds p r ds s shift (mode, known, i) =
      by_rest (s.rests p) (subst (λ x. RestIs known s.next x (s.rests p)) now (i.rests_are p))
    where
      queue : Queue mode (io_data p ∷ ds)
      queue = shift mode i.queue

      now : mode p ≡ parked_io
      now = (queue.0 p refl).0

      runs :
          Inv
            (set_mode p running mode)
            known
            (to noop)
            s.memory.frames
            s.rests
            s.next
            ds
            s.launchers
      runs =
          relocate p running s.rests (rw now refl)
            (λ d f x y z. cc (sym now ∙ i.callers d f p x y z)) tt (λ a q. refl) (queue.0 p refl).1
            (λ n l e. cc (sym now ∙ e)) (requeue ds queue.1 i)

      by_rest :
          (x : Option (Rest V E))
          → RestIs known s.next parked_io x
          → HoldsAt (enter_io p r x) (record s { submitted = ds })
      by_rest (some (with_io k)) q = (
        set_mode p running mode,
        known,
        aim (going p (k r)) (set_mode-same p running mode, q r) runs,
      )
      by_rest (some (at_start b)) q = elim q [ ]
      by_rest (some (with_task d k)) q = elim q [ ]
      by_rest none q = elim q [ ]

  -- An entry that belongs to no coroutine is completed.
  pub other-Holds :
      (x : UserData) (ds : List UserData) (s : Machine V E)
      → ((mode : ℕ → Mode) → Queue mode s.submitted → Queue mode (x ∷ ds))
      → HoldsAt (to noop) s
      → HoldsAt (to noop) (record s { submitted = ds })
  other-Holds x ds s shift (mode, known, i) = (mode, known, requeue ds (shift mode i.queue).1 i)
