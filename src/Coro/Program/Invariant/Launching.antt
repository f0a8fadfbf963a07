-- ===== src/Coro/Program/Invariant/Launching.antt =====
-- A launch, and an await of a launched task where it stays, keep the invariant.
use kk_proxy.Common.{
  ℕ, ◌≡◌, inl, inr, refl, sym, subst, ap, ◌∙◌, Bool, true, false, Bool-cases, some, length, arith,
  some-injective,
}
use kk_proxy.Coro.Flag.{is_daemon, set_daemon}
use kk_proxy.Coro.Flag.Laws.{set_daemon_lem}
use kk_proxy.Coro.Task.{Frame, Memory, resume, noop, Got, store, await_suspend, await_ready}
use kk_proxy.Coro.Task.Laws.{store-same, store-other, await_ready_lem, start_lem}
use kk_proxy.Coro.Program.{
  Body, launches, awaits_job, at_start, with_task, going, to, Machine, new_frame, put, call_task,
  await_task, launch, go,
}
use kk_proxy.Coro.Program.Scoped.{add}
use kk_proxy.Coro.Program.Invariant.{ready, stacked, parked_task, set_mode, RestIs}
use kk_proxy.Coro.Program.Invariant.Moves.{set_mode-same, set_mode-other, aim, leave}
use kk_proxy.Coro.Program.Invariant.Changes.{reframe}
use kk_proxy.Coro.Program.Invariant.Made.{allocate}
use kk_proxy.Coro.Program.Invariant.Queues.{add_job, push}
use kk_proxy.Coro.Program.Ran.{put-same, put-other}
use kk_proxy.Coro.Program.Invariant.Turns.{HoldsAt, Holds, below_next, twice}

module _ {V E : Type 0} where
  pub go-launches :
      (full : Bool) (h context : ℕ) (b : Body V E) (k : ℕ → Body V E) (s : Machine V E)
      → HoldsAt (going h (launches context b k)) s
      → Holds (go full h (launches context b k) s)
  unfolding go
  go-launches full h context b k s (mode, known, i) =
      let (runs, (first, then')) = i.control_is in
      let n = s.next in
      let x = stacked (length s.launchers) in
      let h<n = below_next h (rw runs refl) i in
      let f : Frame V = record new_frame { context = some context; flags = set_daemon 0 true } in
      let m₁ : Memory V = store n (some new_frame) s.memory in
      let daemon : is_daemon f.flags ≡ true = (set_daemon_lem 0 true (omega arith)).0 in
      let left = leave h x s.rests runs tt (λ a q. refl) i in
      let all =
        allocate f b (store n (some f) m₁).frames (put n (at_start b) s.rests)
          (store-same n (some f) m₁) (twice n new_frame f s.memory)
          (put-same n (at_start b) s.rests) (λ a. put-other n a (at_start b) s.rests) refl
          (inl daemon) (λ a q. cc) first left in
      let job = add_job n f i.started (omega arith) (store-same n (some f) m₁) daemon all in
      let under =
        push h (k n)
          (set_mode-other n ready (set_mode h x mode) h (λ q. absurd (omega (arith, h<n, q)))
            ∙ set_mode-same h x mode)
          (then' n) job in
      subst (λ r. Holds (launch h k n r (call_task b s)))
        (sym (start_lem context n new_frame true m₁ (store-same n (some new_frame) s.memory)))
        (set_mode n ready (set_mode h x mode), add n known, under)

  pub await_task-done :
      (h job : ℕ) (k : Got V → Body V E) (f : Frame V) (s : Machine V E)
      → s.memory.frames job ≡ some f
      → f.done ≡ true
      → await_task h job k s
        ≡ record s { control = to (resume h); rests = put h (with_task job k) s.rests }
  await_task-done h job k f s e y = rw (await_ready_lem job f s.memory e, await_task) (rw y refl)

  await_task-later :
      (h job : ℕ) (k : Got V → Body V E) (s : Machine V E) (m : Memory V)
      → await_ready (some job) s.memory ≡ some false
      → await_suspend h job s.memory ≡ some (noop, m)
      → await_task h job k s
        ≡ record s { control = to noop; memory = m; rests = put h (with_task job k) s.rests }
  await_task-later h job k s m e suspends = rw (e, await_task) (rw suspends refl)

  pub await_task-daemon :
      (h job : ℕ) (k : Got V → Body V E) (f c : Frame V) (s : Machine V E)
      → s.memory.frames job ≡ some f
      → s.memory.frames h ≡ some c
      → f.done ≡ false
      → is_daemon f.flags ≡ true
      → await_task h job k s ≡ record s {
        control = to noop;
        memory = store job (some (record f { caller = some h; context = c.context })) s.memory;
        rests = put h (with_task job k) s.rests;
      }
  unfolding await_suspend
  await_task-daemon h job k f c s e g y d =
      let suspends : await_suspend h job s.memory
          ≡ some (
            noop,
            store job (some (record f { caller = some h; context = c.context })) s.memory,
          ) =
        rw (g, e, await_suspend) (rw d refl) in
      await_task-later h job k s _ (await_ready_lem job f s.memory e ∙ ap some y) suspends

  pub go-awaits_job :
      (full : Bool) (h job : ℕ) (k : Got V → Body V E) (s : Machine V E)
      → HoldsAt (going h (awaits_job job k)) s
      → Holds (go full h (awaits_job job k) s)
  unfolding go
  go-awaits_job full h job k s (mode, known, i) =
      let (runs, (is_job, then')) = i.control_is in
      let (p, q, f, e, daemon) = i.jobs job is_job in
      let (c, g, y) = i.live h (rw runs refl) in
      let rests' = put h (with_task job k) s.rests in
      let here = put-same h (with_task job k) s.rests in
      let others = λ (a : ℕ). put-other h a (with_task job k) s.rests in
      elim (Bool-cases f.done) [
        | inl done ↦
            let left =
              leave h ready rests' runs (subst (RestIs known s.next ready) (sym here) (p, q, then'))
                others i in
            subst Holds (sym (await_task-done h job k f s e done))
              (set_mode h ready mode, known, aim (to (resume h)) (set_mode-same h ready mode) left)
        | inr going_on ↦
            let x = parked_task job in
            let f' : Frame V = record f { caller = some h; context = c.context } in
            let left =
              leave h x rests' runs (subst (RestIs known s.next x) (sym here) (refl, p, then'))
                others i in
            let all =
              reframe job f f' (store job (some f') s.memory).frames e
                (store-same job (some f') s.memory) (λ a. store-other job a (some f') s.memory)
                (λ _. going_on) (λ _. inr (h, refl)) (λ d. d)
                (λ a _ w. rw (← some-injective _ _ w) (set_mode-same h x mode)) left in
            subst Holds (sym (await_task-daemon h job k f c s e g going_on daemon))
              (set_mode h x mode, known, all)
      ]
