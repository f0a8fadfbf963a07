-- ===== src/Coro/Jobs/Phases.antt =====
-- What each step about a launched task does to its frame: it waits, it ends, and it is awaited again.
use kk_proxy.Common.{
  some-injective, ℕ, ◌≡◌, ◌≢◌, refl, ap, sym, ◌∙◌, inl, inr, Option-cases, true, false, Option,
  none, some, arith,
}
use kk_proxy.Coro.Flag.{is_daemon, set_daemon}
use kk_proxy.Coro.Flag.Laws.{set_daemon_lem}
use kk_proxy.Coro.Task.{
  Frame, Memory, Next, resume, noop, Outcome, store, ended, value_of, final_frame, await_suspend,
  await_ready, end_body, start,
}
use kk_proxy.Coro.Task.Laws.{
  result_of, value_of-ended, ended_caller, ended_done, ended_flags, store-same, end_body_lem,
}
use kk_proxy.Coro.Program.{new_frame}
use kk_proxy.Coro.Jobs.{makes, launch, await_task, step}

-- Who is resumed when a task ends that was awaited last by this coroutine.
abbrev pub waker : Option ℕ → Next
waker none = noop
waker (some c) = resume c

some_ne_none : {A : Type 0} {x : A} → some x ≢ none
some_ne_none = λ e. cc

same_result :
    {A B : Type 0} {x : Option (A × B)} {a a' : A} {b b' : B}
    → x ≡ some (a, b)
    → x ≡ some (a', b')
    → (a' ≡ a) × (b' ≡ b)
same_result e f = let p = some-injective _ _ (sym f ∙ e) in (ap (λ (x, y). x) p, ap (λ (x, y). y) p)

module _ {V : Type 0} where
  -- A launched task that has not ended, whose last awaiting coroutine is `w`.
  abbrev pub Waits : Option ℕ → Option (Frame V) → Type 0
  Waits w x =
      (f : Frame V) × (x ≡ some f)
      × (f.done ≡ false)
      × (f.ex ≡ none)
      × (is_daemon f.flags ≡ true)
      × (f.caller ≡ w)

  abbrev pub HasEnded : Outcome V → Option (Frame V) → Type 0
  HasEnded o x = (f : Frame V) × (x ≡ some f) × (f.done ≡ true) × (value_of f ≡ result_of o)

  pub not_ready :
      (c d : ℕ) (m : Memory V) (f : Frame V)
      → m.frames d ≡ some f
      → f.done ≡ false
      → await_task c d m ≡ await_suspend c d m
  unfolding await_task await_ready
  not_ready c d m f e y = rw (e, y, await_task, await_ready) refl

  suspends :
      (c d : ℕ) (m : Memory V) (x f : Frame V)
      → m.frames c ≡ some x
      → m.frames d ≡ some f
      → is_daemon f.flags ≡ true
      → await_suspend c d m
        ≡ some (noop, store d (some (record f { caller = some c; context = x.context })) m)
  unfolding await_suspend
  suspends c d m x f g e daemon = rw (g, e, await_suspend) (rw daemon refl)

  pub await_task-Waits :
      (c d : ℕ) (w : Option ℕ) (m m' : Memory V) (n : Next)
      → Waits w (m.frames d)
      → await_task c d m ≡ some (n, m')
      → (n ≡ noop) × Waits (some c) (m'.frames d)
  unfolding await_task await_ready await_suspend
  await_task-Waits c d w m m' n (f, e, y, clean, daemon, _) did = elim (Option-cases (m.frames c)) [
    | inl g ↦
        absurd (some_ne_none (sym did ∙ rw (e, y, g, await_task, await_ready, await_suspend) refl))
    | inr (x, g) ↦
        let f' : Frame V = record f { caller = some c; context = x.context } in
        let (p, q) = same_result (not_ready c d m f e y ∙ suspends c d m x f g e daemon) did in
        (p, (f', ap (λ m. m.frames d) q ∙ store-same d (some f') m, y, clean, daemon, refl))
  ]

  pub await_task-HasEnded :
      (c d : ℕ) (o : Outcome V) (m m' : Memory V) (n : Next)
      → HasEnded o (m.frames d)
      → await_task c d m ≡ some (n, m')
      → (n ≡ resume c) × HasEnded o (m'.frames d)
  unfolding await_task await_ready
  await_task-HasEnded c d o m m' n (f, e, y, v) did =
      let goal : await_task c d m ≡ some (resume c, m) = rw (e, y, await_task, await_ready) refl in
      let (p, q) = same_result goal did in (p, (f, ap (λ m. m.frames d) q ∙ e, y, v))

  final :
      (d : ℕ) (w : Option ℕ) (f : Frame V) (m : Memory V)
      → f.caller ≡ w
      → is_daemon f.flags ≡ true
      → final_frame d f m ≡ (waker w, m)
  final d none f m c daemon = rw (c, daemon) refl
  final d (some x) f m c daemon = rw c refl

  pub end_body-Waits :
      (d : ℕ) (o : Outcome V) (w : Option ℕ) (m m' : Memory V) (n : Next)
      → Waits w (m.frames d)
      → end_body o d m ≡ some (n, m')
      → (n ≡ waker w) × HasEnded o (m'.frames d)
  end_body-Waits d o w m m' n (f, e, y, clean, daemon, c) did =
      let m₁ : Memory V = store d (some (ended o f)) m in
      let (p, q) =
        same_result
          (end_body_lem o d f m e
            ∙ ap some (
                final d w (ended o f) m₁ (ended_caller o f ∙ c)
                  (ap is_daemon (ended_flags o f) ∙ daemon)))
          did in
      (
        p,
        (
          ended o f,
          ap (λ m. m.frames d) q ∙ store-same d (some (ended o f)) m,
          ended_done o f,
          value_of-ended o f clean,
        ),
      )

  pub makes-new :
      (d : ℕ) (m m' : Memory V) (n : Next)
      → step (makes d) m ≡ some (n, m')
      → (n ≡ noop) × (m'.frames d ≡ some new_frame)
  unfolding step
  makes-new d m m' n did = elim (Option-cases (m.frames d)) [
    | inl e ↦
        let goal : step (makes d) m ≡ some (noop, store d (some new_frame) m) = rw (e, step) refl in
        let (p, q) = same_result goal did in
        (p, ap (λ m. m.frames d) q ∙ store-same d (some new_frame) m)
    | inr (f, e) ↦ absurd (some_ne_none (sym did ∙ rw (e, step) refl))
  ]

  pub launch-Waits :
      (context d : ℕ) (m m' : Memory V) (n : Next)
      → m.frames d ≡ some new_frame
      → launch context d m ≡ some (n, m')
      → (n ≡ resume d) × Waits none (m'.frames d)
  unfolding launch start
  launch-Waits context d m m' n e did =
      let f : Frame V = record new_frame { context = some context; flags = set_daemon 0 true } in
      let goal : launch context d m ≡ some (resume d, store d (some f) m) =
        rw (e, launch, start) refl in
      let (p, q) = same_result goal did in
      (
        p,
        (
          f,
          ap (λ m. m.frames d) q ∙ store-same d (some f) m,
          refl,
          refl,
          (set_daemon_lem 0 true (omega arith)).0,
          refl,
        ),
      )
