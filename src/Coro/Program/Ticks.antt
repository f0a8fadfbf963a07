-- ===== src/Coro/Program/Ticks.antt =====
-- What single ticks do, and sequences of them.
use kk_proxy.Common.{
  ℕ, zero, suc, ◌+◌, ◌-◌, ◌≡◌, ◌≢◌, refl, ap, ◌∙◌, true, false, Option, none, some, List, [], ◌∷◌,
  ◌++◌, ℤ, arith, length, replicate, length-append,
}
use kk_proxy.Uring.Loop.{UserData, completed, io_data, store_result, on_wait}
use kk_proxy.Coro.Flag.{is_daemon}
use kk_proxy.Coro.Task.{
  Frame, Memory, resume, noop, Outcome, Got, store, ended, task_finish, get_value, await_suspend,
}
use kk_proxy.Coro.Task.Laws.{
  end_body_lem, store-same, store-other, ended_caller, final_frame-caller, final_frame-finish,
  ended_flags, ended_context, await_ready_lem,
}
use kk_proxy.Coro.Program.{
  Body, ends, acts, awaits_io, awaits_task, Rest, at_start, with_io, with_task, Control, going, to,
  Machine, System, Choice, free_at, new_frame, put, marks, call_task, await_task, tick, ticks,
}

pub marks-same : (xs : List ℕ) → marks xs xs ≡ []
marks-same xs = let e : length xs - length xs ≡ 0 = omega arith in ap (λ n. replicate n completed) e

pub marks-finish : (xs : List ℕ) (c : ℕ) → marks xs (xs ++ (c ∷ [])) ≡ completed ∷ []
marks-finish xs c =
    let e : length (xs ++ (c ∷ [])) - length xs ≡ 1 = omega (arith, length-append xs (c ∷ [])) in
    ap (λ n. replicate n completed) e

-- The choices behind the first `n`.
abbrev pub from : {A : Type 0} → ℕ → (ℕ → A) → ℕ → A
from zero choices = choices
from (suc n) choices = from n (λ i. choices (suc i))

from-free :
    (n : ℕ) (order : ℕ → ℕ) → from n (λ i. free_at (order i)) ≡ (λ i. free_at (from n order i))
from-free zero order = refl
from-free (suc n) order = from-free n (λ i. order (suc i))

module _ {V E : Type 0} where
  abbrev pub at :
      Control V E
      → Memory V
      → (ℕ → Option (Rest V E))
      → ℕ
      → List UserData
      → List E
      → (ℕ → ℤ)
      → ℕ
      → List ℤ
      → System V E
  at c m rests next ds tr ρ n rs = record {
    loop = record {
      running = true;
      results = ρ;
      seen = n;
      world = record {
        control = c;
        memory = m;
        rests = rests;
        next = next;
        submitted = ds;
        trace = tr;
        launchers = [];
      };
    };
    results = rs;
  }

  -- the loop has read the mark
  abbrev pub stopped : System V E → System V E
  stopped s = record s { loop = record s.loop { running = false } }

  -- With a free entry at each tick, and no wait that fails, whatever entry the kernel completes.
  abbrev pub Reaches : System V E → System V E → Type 0
  Reaches s t = (n : ℕ) × ((order : ℕ → ℕ) → ticks n (λ i. free_at (order i)) s ≡ t)

  pub here : (s : System V E) → Reaches s s
  unfolding ticks
  here s = (0, λ order. refl)

  ticks-add :
      (n m : ℕ) (choices : ℕ → Choice) (s : System V E)
      → ticks (n + m) choices s ≡ ticks m (from n choices) (ticks n choices s)
  unfolding ticks
  ticks-add zero m choices s = let e : 0 + m ≡ m = omega arith in ap (λ x. ticks x choices s) e
  ticks-add (suc n) m choices s =
      let e : suc n + m ≡ suc (n + m) = omega arith in
      ap (λ x. ticks x choices s) e ∙ ticks-add n m (λ i. choices (suc i)) (tick (choices 0) s)

  one : (s t : System V E) → ((p : ℕ) → tick (free_at p) s ≡ t) → Reaches s t
  unfolding ticks
  one s t e = (1, λ order. e (order 0))

  pub Reaches-trans : (s t u : System V E) → Reaches s t → Reaches t u → Reaches s u
  Reaches-trans s t u (n, p) (m, q) = (
    n + m,
    λ order.
        let choices : ℕ → Choice = λ i. free_at (order i) in
        ticks-add n m choices s
        ∙ ap (ticks m (from n choices)) (p order)
        ∙ ap (λ c. ticks m c t) (from-free n order)
        ∙ q (from n order),
  )

  -- A tick, and then more.
  pub then_on :
      (s t u : System V E) → ((p : ℕ) → tick (free_at p) s ≡ t) → Reaches t u → Reaches s u
  then_on s t u e r = Reaches-trans s t u (one s t e) r

  -- A new task gets control at once.
  pub await_task-new :
      (h callee : ℕ) (k : Got V → Body V E) (c : Frame V) (s : Machine V E)
      → s.memory.frames h ≡ some c
      → s.memory.frames callee ≡ some new_frame
      → await_task h callee k s ≡ record s {
        control = to (resume callee);
        memory =
            store callee
              (some (record new_frame { caller = some h; context = c.context }))
              s.memory;
        rests = put h (with_task callee k) s.rests;
      }
  unfolding await_suspend is_daemon
  await_task-new h callee k c s p q =
      rw (await_ready_lem callee new_frame s.memory q, await_task) (rw (p, q, await_suspend) refl)

  module _ (h : ℕ) (m : Memory V) (rests : ℕ → Option (Rest V E)) (next : ℕ) (tr : List E)
      (ρ : ℕ → ℤ) (n : ℕ) (rs : List ℤ) where
    -- the system with this control, and nothing submitted
    abbrev pub now : Control V E → System V E
    now c = at c m rests next [] tr ρ n rs

    pub tick-acts :
        (e : E) (b : Body V E) (q : ℕ)
        → tick (free_at q) (now (going h (acts e b)))
          ≡ at (going h b) m rests next [] (tr ++ (e ∷ [])) ρ n rs
    unfolding tick
    tick-acts e b q = refl

    pub tick-awaits_io :
        (k : ℤ → Body V E) (q : ℕ)
        → tick (free_at q) (now (going h (awaits_io k)))
          ≡ at (to noop) m (put h (with_io k) rests) next (io_data h ∷ []) tr ρ n rs
    unfolding tick
    tick-awaits_io k q = refl

    pub tick-wait :
        (k : ℤ → Body V E) (r : ℤ)
        → rests h ≡ some (with_io k)
        → (q : ℕ)
        → tick (free_at q) (at (to noop) m rests next (io_data h ∷ []) tr ρ n (r ∷ rs))
          ≡ at (going h (k r)) m rests next [] tr (store_result ρ h r) (suc n) rs
    unfolding tick on_wait
    tick-wait k r e q = rw (e) refl

    pub tick-at_start :
        (b : Body V E)
        → rests h ≡ some (at_start b)
        → (q : ℕ) → tick (free_at q) (now (to (resume h))) ≡ now (going h b)
    unfolding tick
    tick-at_start b e q = rw (e, tick) refl

    pub tick-with_task :
        (callee : ℕ) (k : Got V → Body V E) (g : Got V)
        → rests h ≡ some (with_task callee k)
        → get_value callee m ≡ some g
        → (q : ℕ) → tick (free_at q) (now (to (resume h))) ≡ now (going h (k g))
    unfolding tick
    tick-with_task callee k g e v q = rw (e, tick) (rw (v) refl)

    pub tick-ends :
        (o : Outcome V) (f : Frame V) (c : ℕ)
        → m.frames h ≡ some f
        → f.caller ≡ some c
        → (q : ℕ)
        → tick (free_at q) (now (going h (ends o)))
          ≡ at (to (resume c)) (store h (some (ended o f)) m) rests next [] tr ρ n rs
    unfolding tick
    tick-ends o f c e w q =
        rw (end_body_lem o h f m e, tick)
          (rw
            (final_frame-caller h c (ended o f) (store h (some (ended o f)) m)
              (ended_caller o f ∙ w))
            (rw (marks-same m.finished) refl))

    -- The end of a task that nobody awaits.
    pub tick-finish :
        (o : Outcome V) (f : Frame V) (c : ℕ)
        → m.frames h ≡ some f
        → f.caller ≡ none
        → is_daemon f.flags ≡ false
        → f.context ≡ some c
        → (q : ℕ)
        → tick (free_at q) (now (going h (ends o)))
          ≡ at
              (to noop)
              (store h none (task_finish (some c) (store h (some (ended o f)) m)))
              rests
              next
              (completed ∷ [])
              tr
              ρ
              n
              rs
    unfolding tick
    tick-finish o f c e alone job x q =
        rw (end_body_lem o h f m e, tick)
          (rw
            (final_frame-finish h c (ended o f) (store h (some (ended o f)) m)
              (ended_caller o f ∙ alone) (ap is_daemon (ended_flags o f) ∙ job)
              (ended_context o f ∙ x))
            (rw (marks-finish m.finished c) refl))

    pub tick-mark :
        (q : ℕ)
        → tick (free_at q) (at (to noop) m rests next (completed ∷ []) tr ρ n rs)
          ≡ stopped (at (to noop) m rests next [] tr ρ (suc n) rs)
    unfolding tick on_wait
    tick-mark q = refl

    -- The frame of a task that a coroutine with the frame `c` awaits.
    abbrev pub awaited : Frame V → Frame V
    awaited c = record new_frame { caller = some h; context = c.context }

    abbrev pub with_callee : Frame V → Memory V
    with_callee c = store next (some (awaited c)) (store next (some new_frame) m)

    pub tick-awaits_task :
        (b : Body V E) (k : Got V → Body V E) (c : Frame V)
        → h ≢ next
        → m.frames h ≡ some c
        → (q : ℕ)
        → tick (free_at q) (now (going h (awaits_task b k)))
          ≡ at
              (to (resume next))
              (with_callee c)
              (put h (with_task next k) (put next (at_start b) rests))
              (suc next)
              []
              tr
              ρ
              n
              rs
    unfolding tick
    tick-awaits_task b k c apart e q =
        let m₁ : Memory V = store next (some new_frame) m in
        let new : m₁.frames next ≡ some new_frame = store-same next (some new_frame) m in
        ap (λ w. record (now (to noop)) { loop = record (now (to noop)).loop { world = w } })
          (await_task-new h next k c (call_task b (now (going h (awaits_task b k))).loop.world)
            (store-other next h (some new_frame) m apart ∙ e) new)
