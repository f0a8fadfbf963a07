-- ===== src/Coro/Program/Stops/Go.antt =====
-- What a coroutine does, and the end of the loop.
use kk_proxy.Common.{
  ℕ, ◌≡◌, ◌≢◌, inl, inr, refl, sym, subst, ap, ◌∙◌, Bool, true, false, Bool-cases, none, some, [],
  ◌∷◌, ◌++◌, ◌==◌, arith, some-injective, Option-cases,
}
use kk_proxy.Coro.Flag.{is_daemon, set_daemon}
use kk_proxy.Coro.Flag.Laws.{set_daemon_lem}
use kk_proxy.Coro.Task.{
  Frame, Memory, Next, resume, noop, Got, Outcome, store, ended, task_finish, final_frame, end_body,
}
use kk_proxy.Coro.Task.Laws.{
  store-same, store-other, end_body_lem, ended_caller, ended_flags, ended_context,
  final_frame-caller, final_frame-daemon, final_frame-finish, start_lem,
}
use kk_proxy.Coro.Program.{
  Body, ends, acts, awaits_io, awaits_task, launches, awaits_job, going, Machine, new_frame, marks,
  after_end, call_task, launch, go,
}
use kk_proxy.Coro.Program.Invariant.Changes.{IsKept}
use kk_proxy.Coro.Program.Invariant.Turns.{HoldsAt, below_next, twice}
use kk_proxy.Coro.Program.Invariant.Launching.{await_task-done, await_task-daemon}
use kk_proxy.Coro.Program.Invariant.Ending.{by_guard}
use kk_proxy.Coro.Program.Ticks.{await_task-new, marks-same}
use kk_proxy.Coro.Program.Laws.{root}
use kk_proxy.Coro.Program.Stops.{IsUnmarked, IsUnmarked-append, IsUnmarked-none, keep, Stage}

module _ {V E : Type 0} (context : ℕ) (running : Bool) where
  go-Stage-awaits_task :
      (full : Bool) (h : ℕ) (b : Body V E) (k : Got V → Body V E) (w : Machine V E)
      → HoldsAt (going h (awaits_task b k)) w
      → Stage context running w
      → Stage context running (go full h (awaits_task b k) w)
  unfolding go
  go-Stage-awaits_task full h b k w (mode, known, i) g =
      let runs = i.control_is.0 in
      let n = w.next in
      let (c, e, y) = i.live h (rw runs refl) in
      let h<n = below_next h (rw runs refl) i in
      let apart : h ≢ n = λ q. absurd (omega (arith, h<n, q)) in
      let f : Frame V = record new_frame { caller = some h; context = c.context } in
      subst (Stage context running)
        (sym (
          await_task-new h n k c (call_task b w)
            (store-other n h (some new_frame) w.memory apart ∙ e)
            (store-same n (some new_frame) w.memory)))
        (keep context running w.submitted w.memory
          (store n (some f) (store n (some new_frame) w.memory)) refl
          (twice n new_frame f w.memory 0 (λ q. absurd (omega (arith, q, i.started)))) g)

  go-Stage-launches :
      (full : Bool) (h x : ℕ) (b : Body V E) (k : ℕ → Body V E) (w : Machine V E)
      → HoldsAt (going h (launches x b k)) w
      → Stage context running w
      → Stage context running (go full h (launches x b k) w)
  unfolding go
  go-Stage-launches full h x b k w (mode, known, i) g =
      let n = w.next in
      let f : Frame V = record new_frame { context = some x; flags = set_daemon 0 true } in
      let m₁ : Memory V = store n (some new_frame) w.memory in
      subst (λ r. Stage context running (launch h k n r (call_task b w)))
        (sym (start_lem x n new_frame true m₁ (store-same n (some new_frame) w.memory)))
        (keep context running w.submitted w.memory (store n (some f) m₁) refl
          (twice n new_frame f w.memory 0 (λ q. absurd (omega (arith, q, i.started)))) g)

  go-Stage-awaits_job :
      (full : Bool) (h job : ℕ) (k : Got V → Body V E) (w : Machine V E)
      → HoldsAt (going h (awaits_job job k)) w
      → Stage context running w
      → Stage context running (go full h (awaits_job job k) w)
  unfolding go
  go-Stage-awaits_job full h job k w (mode, known, i) g =
      let (runs, (is_job, then')) = i.control_is in
      let (p, q, f, e, daemon) = i.jobs job is_job in
      let (c, at, y) = i.live h (rw runs refl) in
      let f' : Frame V = record f { caller = some h; context = c.context } in
      elim (Bool-cases f.done) [
        | inl done ↦ subst (Stage context running) (sym (await_task-done h job k f w e done)) g
        | inr going_on ↦
            subst (Stage context running)
              (sym (await_task-daemon h job k f c w e at going_on daemon))
              (keep context running w.submitted w.memory (store job (some f') w.memory) refl
                (store-other job 0 (some f') w.memory (λ z. absurd (omega (arith, z, p)))) g)
      ]

  -- A coroutine that something keeps ends: it calls no `finish`.
  kept_end :
      (w : Machine V E) (m : Memory V) (n : Next)
      → m.finished ≡ w.memory.finished
      → m.frames 0 ≡ w.memory.frames 0
      → Stage context running w
      → Stage context running (after_end (some (n, m)) w)
  kept_end w m n e f (inl (t, p, q, r)) =
      (inl (
        t,
        e ∙ p,
        subst (λ x. IsUnmarked (w.submitted ++ marks w.memory.finished x)) (sym e)
            (subst (λ x. IsUnmarked (w.submitted ++ x)) (sym (marks-same w.memory.finished))
              (IsUnmarked-none w.submitted q)),
        f ∙ r,
      ))
  kept_end w m n e f (inr (p, r)) = inr (e ∙ p, f ∙ r)

  module _ (h : ℕ) (o : Outcome V) (w : Machine V E) (f : Frame V)
      (e : w.memory.frames h ≡ some f) where
    m₁ : Memory V
    m₁ = store h (some (ended o f)) w.memory

    -- Any coroutine but the first.
    later_end :
        IsKept f
        → h ≢ 0
        → Stage context running w
        → Stage context running (after_end (some (final_frame h (ended o f) m₁)) w)
    unfolding m₁
    later_end kept' apart g = elim (Option-cases f.caller) [
      | inr (c, q) ↦
          subst (λ p. Stage context running (after_end (some p) w))
            (sym (final_frame-caller h c (ended o f) m₁ (ended_caller o f ∙ q)))
            (kept_end w m₁ (resume c) refl same g)
      | inl q ↦
          subst (λ p. Stage context running (after_end (some p) w))
            (sym (final_frame-daemon h (ended o f) m₁ (ended_caller o f ∙ q) (daemon q kept')))
            (kept_end w m₁ noop refl same g)
    ]
      where
        same : m₁.frames 0 ≡ w.memory.frames 0
        same = store-other h 0 (some (ended o f)) w.memory (λ z. apart (sym z))

        daemon : f.caller ≡ none → IsKept f → is_daemon (ended o f).flags ≡ true
        daemon q (inl d) = ap is_daemon (ended_flags o f) ∙ d
        daemon q (inr (c, d)) = cc (sym q ∙ d)

    -- The first one.
    first_end :
        h ≡ 0
        → Stage context running w
        → Stage context running (after_end (some (final_frame h (ended o f) m₁)) w)
    unfolding m₁
    first_end z (inr (p, r)) = cc (sym e ∙ ap w.memory.frames z ∙ r)
    first_end z (inl (t, p, u, r)) =
        let is : f ≡ root context = some-injective _ _ (sym e ∙ ap w.memory.frames z ∙ r) in
        let m₂ : Memory V = store h none (task_finish (some context) m₁) in
        subst (λ p. Stage context running (after_end (some p) w))
          (sym (
            final_frame-finish h context (ended o f) m₁ (ended_caller o f ∙ ap (λ y. y.caller) is)
              (ap is_daemon (ended_flags o f ∙ ap (λ y. y.flags) is) ∙ not_daemon)
              (ended_context o f ∙ ap (λ y. y.context) is)))
          (inr (
            ap (λ y. y ++ (context ∷ [])) p,
            ap m₂.frames (sym z) ∙ store-same h none (task_finish (some context) m₁),
          ))
      where
        not_daemon : is_daemon (set_daemon 0 false) ≡ false
        not_daemon = (set_daemon_lem 0 false (omega arith)).0

  go-Stage-ends :
      (full : Bool) (h : ℕ) (o : Outcome V) (w : Machine V E)
      → HoldsAt (going h (ends o)) w
      → Stage context running w
      → Stage context running (go full h (ends o) w)
  unfolding go m₁
  go-Stage-ends full h o w (mode, known, i) g =
      let runs = i.control_is.0 in
      let (f, e, y) = i.live h (rw runs refl) in
      let h<n = below_next h (rw runs refl) i in
      by_guard full w (after_end (end_body o h w.memory) w) (Stage context running) g (
        subst (λ r. Stage context running (after_end r w)) (sym (end_body_lem o h f w.memory e))
          (elim (Bool-cases (h == 0)) [
            | inl z ↦ first_end h o w f e (ground arith) g
            | inr z ↦
                let (f', e', kept') = i.kept h (ground arith) h<n in
                let same : f' ≡ f = some-injective _ _ (sym e' ∙ e) in
                later_end h o w f e (subst IsKept same kept') (ground arith) g
          ]))

  pub go-Stage :
      (full : Bool) (h : ℕ) (b : Body V E) (w : Machine V E)
      → HoldsAt (going h b) w
      → Stage context running w
      → Stage context running (go full h b w)
  unfolding go
  go-Stage full h (ends o) w i g = go-Stage-ends full h o w i g
  go-Stage full h (acts e b) w i g = g
  go-Stage true h (awaits_io k) w i g = g
  go-Stage false h (awaits_io k) w i (inl (t, p, q, r)) =
      inl (t, p, IsUnmarked-append w.submitted h q, r)
  go-Stage false h (awaits_io k) w i (inr (p, r)) = inr (p, r)
  go-Stage full h (awaits_task b k) w i g = go-Stage-awaits_task full h b k w i g
  go-Stage full h (launches x b k) w i g = go-Stage-launches full h x b k w i g
  go-Stage full h (awaits_job job k) w i g = go-Stage-awaits_job full h job k w i g
