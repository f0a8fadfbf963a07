-- ===== src/Coro/Program/Laws.antt =====
-- What a program that is run gives: the same as its body read from the top to the bottom.
use kk_proxy.Common.{
  sym, ℕ, zero, ◌+◌, ◌≤◌, ◌≢◌, Option, suc, ◌<◌, ◌≡◌, refl, ap, ◌∙◌, false, none, some, List, [],
  ◌∷◌, ◌++◌, ℤ, pos, arith, Option-cases, subst, some-injective, inl, inr,
}
use kk_proxy.Uring.Loop.{completed}
use kk_proxy.Coro.Task.{Memory, Frame, resume, noop, store, ended, task_finish}
use kk_proxy.Coro.Task.Laws.{result_of, store-same, store-other, start_lem}
use kk_proxy.Coro.Program.{
  Body, ends, acts, awaits_io, awaits_task, launches, awaits_job, at_start, going, to, System,
  new_frame, put, one_frame, block_run,
}
use kk_proxy.Coro.Handle
use kk_proxy.Coro.Flag.{set_daemon}
use kk_proxy.Coro.Flag.Laws.{set_daemon_lem}
use kk_proxy.Coro.Program.Eval.{Run, eval}
use kk_proxy.Coro.Program.Ticks.{
  at, Reaches, here, then_on, Reaches-trans, tick-at_start, tick-finish, tick-mark, stopped,
}
use kk_proxy.Coro.Program.Ran.{Point, now, Ran, put-same, Ran-ends, Ran-act, after_io, Ran-io}
use kk_proxy.Coro.Program.Awaiting.{callee, called, called-frames, back, back-frames, Ran-task}

-- The frame that `block_run` starts.
abbrev pub root : {V : Type 0} → ℕ → Frame V
root context = record new_frame { context = some context; flags = set_daemon 0 false }

-- How many frames there are below an address.
abbrev pub present : {V : Type 0} → Option (Frame V) → ℕ
present none = 0
present (some f) = 1

abbrev pub frames_in : {V : Type 0} → ℕ → Memory V → ℕ
frames_in zero m = 0
frames_in (suc a) m = present (m.frames a) + frames_in a m

present-some : {V : Type 0} (f : Option (Frame V)) → f ≢ none → present f ≡ 1
present-some none n = absurd (n refl)
present-some (some f) n = refl

frames_in-all :
    {V : Type 0} (n next : ℕ) (m : Memory V)
    → next ≡ 1 + n
    → m.frames 0 ≡ none
    → ((a : ℕ) → 1 ≤ a → a < next → m.frames a ≢ none)
    → frames_in next m ≡ n
frames_in-all n zero m e first kept = absurd (omega (arith, e))
frames_in-all zero (suc next) m e first kept =
    let z : next ≡ 0 = omega (arith, e) in rw (z) (rw (first) refl)
frames_in-all (suc n) (suc next) m e first kept = omega (
  arith,
  present-some (m.frames next) (kept next (omega (arith, e)) (omega arith)),
  frames_in-all n next m (omega (arith, e)) first (λ a l s. kept a l (omega (arith, s))),
)

module _ {V E : Type 0} where
  run_body :
      (b : Body V E) (h : ℕ) (c : Frame V) (p : Point V E) (rs : List ℤ) (r : Run V E)
      → h < p.next
      → p.m.frames h ≡ some c
      → p.rs ≡ rs
      → eval b rs ≡ some r
      → Ran h b p r
  unfolding eval
  run_body (ends o) h c p rs r inside there e q =
      let same : (o, p.rs, [], 0) ≡ r = (ap (λ x. (o, x, [], 0)) e ∙ some-injective _ _ q) in
      subst (λ x. Ran h (ends o) p x) same (Ran-ends h o p)
  run_body (acts a b) h c p rs r inside there e q = elim (Option-cases (eval b rs)) [
    | inl stuck ↦ cc (rw (stuck, eval) at q)
    | inr (r', found) ↦
        let same : (r'.0, r'.1, (a ∷ []) ++ r'.2, 0 + r'.3) ≡ r =
          some-injective _ _ (rw (found, eval) at q) in
        subst (λ x. Ran h (acts a b) p x) same
          (Ran-act h a b p r'
            (run_body b h c (record p { tr = p.tr ++ (a ∷ []) }) rs r' inside there e found))
  ]
  run_body (awaits_io k) h c p [] r inside there e q = cc
  run_body (awaits_io k) h c p (x ∷ rs) r inside there e q =
      Ran-io h k x rs p r e (run_body (k x) h c (after_io h k x rs p) rs r inside there refl q)
  run_body (awaits_task b k) h c p rs r inside there e q = elim (Option-cases (eval b rs)) [
    | inl stuck ↦ cc (rw (stuck, eval) at q)
    | inr (r₁, found) ↦
        let ran₁ =
          run_body b p.next (callee h b k c p inside there) (called h b k c p inside there) rs r₁
            (omega arith) (called-frames h b k c p inside there) e found in
        elim (Option-cases (eval (k (result_of r₁.0)) r₁.1)) [
          | inl stuck ↦ cc (rw (found, stuck, eval) at q)
          | inr (r₂, found₂) ↦
              let p' = back h b k c p inside there r₁ ran₁ in
              let ran₂ =
                run_body (k (result_of r₁.0)) h c p' r₁.1 r₂
                  (omega (arith, inside, ran₁.keeps.grows))
                  (back-frames h b k c p inside there r₁ ran₁ h inside ∙ there) ran₁.rest found₂ in
              let same : (r₂.0, r₂.1, r₁.2 ++ r₂.2, suc r₁.3 + r₂.3) ≡ r =
                some-injective _ _ (rw (found, found₂, eval) at q) in
              subst (λ x. Ran h (awaits_task b k) p x) same
                (Ran-task h b k c p inside there r₁ ran₁ r₂ ran₂)
        ]
  ]
  run_body (launches context b k) h c p rs r inside there e q = cc
  run_body (awaits_job job k) h c p rs r inside there e q = cc

  abbrev pub first : ℕ → Body V E → List ℤ → Point V E
  first context b rs = record {
    m = store 0 (some (root context)) one_frame.memory;
    rests = put 0 (at_start b) (λ a. none);
    next = 1;
    tr = [];
    stored = λ p. pos 0;
    n = 0;
    rs = rs;
  }

  pub block_run-first :
      (context : ℕ) (b : Body V E) (rs : List ℤ)
      → block_run context b rs ≡ some (now (to (resume 0)) (first context b rs))
  unfolding block_run Handle.block_run
  block_run-first context b rs = rw (start_lem context 0 new_frame false one_frame.memory refl) refl

  -- A program that has run: the loop has stopped and the thread is not in a coroutine, what was seen and the
  -- results that are left are these, `finish` of the context was called once, the frame of the first
  -- coroutine is gone, and there are as many others as tasks were awaited.
  abbrev pub Finished : (context : ℕ) → Run V E → System V E → Type 0
  Finished context r s =
      (s.loop.running ≡ false)
      × (s.loop.world.control ≡ to noop)
      × (s.loop.world.submitted ≡ [])
      × (s.loop.world.trace ≡ r.2)
      × (s.results ≡ r.1)
      × (s.loop.world.memory.finished ≡ context ∷ [])
      × (s.loop.world.memory.frames 0 ≡ none)
      × (frames_in s.loop.world.next s.loop.world.memory ≡ r.3)

  -- The end of the root, and then the mark.
  root_ends :
      (context : ℕ) (r : Run V E) (p : Point V E)
      → p.m.frames 0 ≡ some (root context)
      → p.m.finished ≡ []
      → p.tr ≡ r.2
      → p.rs ≡ r.1
      → p.next ≡ 1 + r.3
      → ((a : ℕ) → 1 ≤ a → a < p.next → p.m.frames a ≢ none)
      → (s : System V E) × Reaches (now (going 0 (ends r.0)) p) s × Finished context r s
  root_ends context r p there clean seen left new kept =
      let o = r.0 in
      let m' =
        store 0 none (task_finish (some context) (store 0 (some (ended o (root context))) p.m)) in
      let marked = at (to noop) m' p.rests p.next (completed ∷ []) p.tr p.stored p.n p.rs in
      let goal = stopped (at (to noop) m' p.rests p.next [] p.tr p.stored (suc p.n) p.rs) in
      (
        goal,
        then_on (now (going 0 (ends o)) p) marked goal
            (tick-finish 0 p.m p.rests p.next p.tr p.stored p.n p.rs o (root context) context there
              refl (set_daemon_lem 0 false (omega arith)).0 refl)
            (then_on marked goal goal (tick-mark 0 m' p.rests p.next p.tr p.stored p.n p.rs)
              (here goal)),
        (
          refl,
          refl,
          refl,
          seen,
          left,
          ap (λ x. x ++ (context ∷ [])) clean,
          store-same 0 none
              (task_finish (some context) (store 0 (some (ended o (root context))) p.m)),
          frames_in-all r.3 p.next m' new
              (store-same 0 none
                (task_finish (some context) (store 0 (some (ended o (root context))) p.m)))
              (λ a l s e.
                let n : a ≢ 0 = λ q. absurd (omega (arith, q, l)) in
                kept a l s (
                  sym (store-other 0 a (some (ended o (root context))) p.m n)
                  ∙ sym (
                      store-other 0 a none
                        (task_finish (some context) (store 0 (some (ended o (root context))) p.m))
                        n)
                  ∙ e)),
        ),
      )

  -- For a body that awaits and acts, and launches nothing (a launch has no reading from the top to the
  -- bottom), with a free entry for each `co_await` and for `finish`, and no wait that fails, in whatever order the kernel completes
  -- what is submitted: whenever it comes to its end with the results that the kernel gives, `block_run` of
  -- it returns: after finitely many ticks the loop has stopped and the thread is in no
  -- coroutine. What was seen is then the same, in the same order, the same results were used,
  -- `finish` of the context was called exactly once, and the frame of the coroutine is destroyed; but each
  -- of the tasks that were awaited has left its frame behind.
  pub block_run-eval :
      (context : ℕ) (b : Body V E) (rs : List ℤ) (r : Run V E)
      → eval b rs ≡ some r
      → (s s' : System V E) × (block_run context b rs ≡ some s)
        × Reaches s s'
        × Finished context r s'
  block_run-eval context b rs r e =
      let p = first context b rs in
      let ran =
        run_body b 0 (root context) p rs r (omega arith)
          (store-same 0 (some (root context)) one_frame.memory) refl e in
      let (s', ending, over) =
        root_ends context r ran.q
          (ran.keeps.frames 0 (omega arith) ∙ store-same 0 (some (root context)) one_frame.memory)
          ran.keeps.finished ran.seen ran.rest ran.allocated ran.keeps.new_frames in
      let s = now (to (resume 0)) p in
      let begins =
        then_on s (now (going 0 b) p) (now (going 0 b) p)
          (tick-at_start 0 p.m p.rests p.next p.tr p.stored p.n p.rs b
            (put-same 0 (at_start b) (λ a. none)))
          (here (now (going 0 b) p)) in
      (
        s,
        s',
        block_run-first context b rs,
        Reaches-trans s (now (going 0 (ends r.0)) ran.q) s'
            (Reaches-trans s (now (going 0 b) p) (now (going 0 (ends r.0)) ran.q) begins
              ran.reaches)
            ending,
        over,
      )
