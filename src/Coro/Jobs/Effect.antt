-- ===== src/Coro/Jobs/Effect.antt =====
-- What a step does to the frame that it is about, and who is resumed next, as a relation.
use kk_proxy.Common.{
  ℕ, ◌≡◌, refl, sym, subst, ◌∙◌, inl, inr, true, false, Bool-cases, Option-cases, Option, none,
  some, if◌then◌else◌,
}
use kk_proxy.Coro.Flag.{is_daemon, set_daemon}
use kk_proxy.Coro.Task.{
  Frame, Memory, Next, resume, noop, Outcome, store, task_finish, ended, await_suspend, await_ready,
  end_body, start,
}
use kk_proxy.Coro.Task.Laws.{
  ended_caller, store-same, end_body_lem, final_frame-caller, final_frame-daemon, final_frame-gone,
}
use kk_proxy.Coro.Jobs.Phases.{not_ready}
use kk_proxy.Coro.Program.{new_frame}
use kk_proxy.Coro.Jobs.{
  Step, makes, launches, awaits, ends, destroys, awaits_promise, runs, completes, target, launch,
  await_task, step,
}

-- The frame before and after the step, `none` where there is no frame.
pub data Effect {V : Type 0} : Step V → Next → (before after : Option (Frame V)) → Type 0 where
  made : {h : ℕ} → Effect (makes h) noop none (some new_frame)
  launched :
      {context h : ℕ} (f : Frame V)
      → Effect
          (launches context h)
          (resume h)
          (some f)
          (some (record f { context = some context; flags = set_daemon f.flags true }))
  began :
      {context h : ℕ} (f : Frame V)
      → Effect
          (runs context h)
          (resume h)
          (some f)
          (some (record f { context = some context; flags = set_daemon f.flags false }))
  goes_on :
      {c h : ℕ} (f : Frame V) → f.done ≡ true → Effect (awaits c h) (resume c) (some f) (some f)
  waits :
      {c h : ℕ} (f x : Frame V)
      → Effect
          (awaits c h)
          (if is_daemon f.flags then noop else resume h)
          (some f)
          (some (record f { caller = some c; context = x.context }))
  wakes :
      {o : Outcome V} {h : ℕ} (f : Frame V) (c : ℕ)
      → f.caller ≡ some c
      → Effect (ends o h) (resume c) (some f) (some (ended o f))
  stays : {o : Outcome V} {h : ℕ} (f : Frame V) → Effect (ends o h) noop (some f) (some (ended o f))
  goes_away : {o : Outcome V} {h : ℕ} (f : Frame V) → Effect (ends o h) noop (some f) none
  destroyed : {h : ℕ} (f : Frame V) → Effect (destroys h) noop (some f) none
  promised : {c h : ℕ} {x : Option (Frame V)} → Effect (awaits_promise c h) noop x x
  went_on : {h : ℕ} (f : Frame V) → Effect (completes h) (resume h) (some f) (some f)

module _ {V : Type 0} where
  -- What `step` left, where it did not fail.
  abbrev Effected : Step V → Memory V → Option (Next × Memory V) → Type 0
  Effected s m none = Unit
  Effected s m (some (n, m')) = Effect s n (m.frames (target s)) (m'.frames (target s))

  stored :
      (s : Step V) (n : Next) (x y : Option (Frame V)) (m m₂ : Memory V)
      → m.frames (target s) ≡ x
      → Effect s n x y
      → Effect s n (m.frames (target s)) ((store (target s) y m₂).frames (target s))
  stored s n x y m m₂ e f =
      subst (λ z. Effect s n z ((store (target s) y m₂).frames (target s))) (sym e)
        (subst (λ z. Effect s n x z) (sym (store-same (target s) y m₂)) f)

  -- The end of a body, by whether a coroutine awaits it and whether it is a daemon.
  end_body-Effect :
      (o : Outcome V) (h : ℕ) (f : Frame V) (m : Memory V)
      → m.frames h ≡ some f
      → Effected (ends o h) m (end_body o h m)
  unfolding end_body
  end_body-Effect o h f m e = rw (end_body_lem o h f m e) (elim (Option-cases f.caller) [
    | inr (c, q) ↦
        let called : (ended o f).caller ≡ some c = ended_caller o f ∙ q in
        subst (λ p. Effected (ends o h) m (some p))
          (sym (final_frame-caller h c (ended o f) (store h (some (ended o f)) m) called))
          (stored (ends o h) (resume c) (some f) (some (ended o f)) m m e (wakes f c q))
    | inl q ↦
        let alone : (ended o f).caller ≡ none = ended_caller o f ∙ q in
        let m₁ : Memory V = store h (some (ended o f)) m in
        elim (Bool-cases (is_daemon (ended o f).flags)) [
          | inl y ↦
              subst (λ p. Effected (ends o h) m (some p))
                (sym (final_frame-daemon h (ended o f) m₁ alone y))
                (stored (ends o h) noop (some f) (some (ended o f)) m m e (stays f))
          | inr y ↦
              let m₂ : Memory V = task_finish (ended o f).context m₁ in
              subst (λ p. Effected (ends o h) m (some p))
                (sym (final_frame-gone h (ended o f) m₁ alone y))
                (stored (ends o h) noop (some f) none m m₂ e (goes_away f))
        ]
  ])

  step_lem : (s : Step V) (m : Memory V) → Effected s m (step s m)
  unfolding step launch await_task await_suspend start await_ready end_body
  step_lem (makes h) m = elim (Option-cases (m.frames h)) [
    | inl e ↦ rw (e, step) (stored (makes h) noop none (some new_frame) m m e made)
    | inr (f, e) ↦ rw (e, step) tt
  ]
  step_lem (launches context h) m = elim (Option-cases (m.frames h)) [
    | inl e ↦ rw (e, step, launch, start) tt
    | inr (f, e) ↦
        rw (e, step, launch, start)
          (stored (launches context h) (resume h) (some f) _ m m e (launched f))
  ]
  step_lem (runs context h) m = elim (Option-cases (m.frames h)) [
    | inl e ↦ rw (e, step, start) tt
    | inr (f, e) ↦
        rw (e, step, start) (stored (runs context h) (resume h) (some f) _ m m e (began f))
  ]
  step_lem (awaits c h) m = elim (Option-cases (m.frames h)) [
    | inl e ↦ rw (e, step, await_task, await_ready) tt
    | inr (f, e) ↦ elim (Bool-cases f.done) [
      | inl y ↦ rw (e, y, step, await_task, await_ready) (rw e (goes_on f y))
      | inr y ↦ elim (Option-cases (m.frames c)) [
        | inl g ↦ rw (e, y, g, step, await_task, await_ready, await_suspend) tt
        | inr (x, g) ↦
            let f' : Frame V = record f { caller = some c; context = x.context } in
            let n : Next = if is_daemon f.flags then noop else resume h in
            let goal : step (awaits c h) m ≡ some (n, store h (some f') m) =
              not_ready c h m f e y ∙ rw (g, e, await_suspend) refl in
            subst (Effected (awaits c h) m) (sym goal)
              (stored (awaits c h) n (some f) (some f') m m e (waits f x))
      ]
    ]
  ]
  step_lem (ends o h) m = elim (Option-cases (m.frames h)) [
    | inl e ↦
        let goal : end_body o h m ≡ none = rw (e, end_body) refl in
        subst (Effected (ends o h) m) (sym goal) tt
    | inr (f, e) ↦ end_body-Effect o h f m e
  ]
  step_lem (destroys h) m = elim (Option-cases (m.frames h)) [
    | inl e ↦ rw (e, step) tt
    | inr (f, e) ↦ rw (e, step) (stored (destroys h) noop (some f) none m m e (destroyed f))
  ]
  step_lem (awaits_promise c h) m = promised
  step_lem (completes h) m = elim (Option-cases (m.frames h)) [
    | inl e ↦ rw (e, step) tt
    | inr (f, e) ↦ rw (e, step) (rw e (went_on f))
  ]

  -- Each step that does not fail has such an effect.
  pub step-Effect :
      (s : Step V) (n : Next) (m m' : Memory V)
      → step s m ≡ some (n, m')
      → Effect s n (m.frames (target s)) (m'.frames (target s))
  step-Effect s n m m' e = subst (Effected s m) e (step_lem s m)
