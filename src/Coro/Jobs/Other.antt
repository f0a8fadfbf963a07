-- ===== src/Coro/Jobs/Other.antt =====
-- A step is about one frame, and leaves the others as they are.
use kk_proxy.Common.{
  ℕ, ◌≡◌, ◌≢◌, refl, ◌∙◌, inl, inr, Bool-cases, Option-cases, false, Option, none, some, List, [],
  ◌∷◌, ◌==◌, arith,
}
use kk_proxy.Coro.Flag.{is_daemon}
use kk_proxy.Coro.Task.{
  Frame, Memory, Next, Outcome, store, task_finish, ended, final_frame, await_suspend, await_ready,
  end_body, start,
}
use kk_proxy.Coro.Task.Laws.{store-other, end_body_lem}
use kk_proxy.Coro.Jobs.{
  Step, makes, launches, awaits, ends, destroys, awaits_promise, runs, completes, target, is_about,
  launch, await_task, step, Runs, stops, goes, steps_of, nexts_of,
}

same_cons : {A : Type 0} {x y : A} {xs ys : List A} → x ∷ xs ≡ y ∷ ys → (x ≡ y) × (xs ≡ ys)
same_cons e = (cc e, cc e)

cons_ne_nil : {A : Type 0} {x : A} {xs : List A} → x ∷ xs ≢ []
cons_ne_nil = λ e. cc

miss_ne : (a d : ℕ) → (a == d) ≡ false → d ≢ a
miss_ne a d h = ground arith

module _ {V : Type 0} where
  -- What a step left, where it did not fail, has the frame `d` as it was.
  abbrev Unchanged : ℕ → Memory V → Option (Next × Memory V) → Type 0
  Unchanged d m none = Unit
  Unchanged d m (some (n, m')) = m'.frames d ≡ m.frames d

  finish-frames : (c : Option ℕ) (d : ℕ) (m : Memory V) → (task_finish c m).frames d ≡ m.frames d
  finish-frames none d m = refl
  finish-frames (some c) d m = refl

  final_frame-other :
      (h d : ℕ) (f : Frame V) (m : Memory V) → d ≢ h → (final_frame h f m).1.frames d ≡ m.frames d
  final_frame-other h d f m apart = elim (Option-cases f.caller) [
    | inr (c, e) ↦ rw e refl
    | inl e ↦ elim (Bool-cases (is_daemon f.flags)) [
      | inl y ↦ rw (e, y) refl
      | inr y ↦
          rw (e, y)
            (store-other h d none (task_finish f.context m) apart ∙ finish-frames f.context d m)
    ]
  ]

  end_body-other : (o : Outcome V) (h d : ℕ) (m : Memory V) → d ≢ h → Unchanged d m (end_body o h m)
  unfolding end_body
  end_body-other o h d m apart = elim (Option-cases (m.frames h)) [
    | inl e ↦ rw (e, end_body) tt
    | inr (f, e) ↦ rw (end_body_lem o h f m e) (
        final_frame-other h d (ended o f) (store h (some (ended o f)) m) apart
        ∙ store-other h d (some (ended o f)) m apart)
  ]

  completes-Unchanged : (h d : ℕ) (m : Memory V) → Unchanged d m (step (completes h) m)
  unfolding step
  completes-Unchanged h d m = elim (Option-cases (m.frames h)) [
    | inl e ↦ rw (e, step) tt
    | inr (f, e) ↦ rw (e, step) refl
  ]

  step-other : (s : Step V) (d : ℕ) (m : Memory V) → d ≢ target s → Unchanged d m (step s m)
  unfolding step launch await_task await_suspend start await_ready
  step-other (makes h) d m apart = elim (Option-cases (m.frames h)) [
    | inl e ↦ rw (e, step) (store-other h d _ m apart)
    | inr (f, e) ↦ rw (e, step) tt
  ]
  step-other (launches context h) d m apart = elim (Option-cases (m.frames h)) [
    | inl e ↦ rw (e, step, launch, start) tt
    | inr (f, e) ↦ rw (e, step, launch, start) (store-other h d _ m apart)
  ]
  step-other (runs context h) d m apart = elim (Option-cases (m.frames h)) [
    | inl e ↦ rw (e, step, start) tt
    | inr (f, e) ↦ rw (e, step, start) (store-other h d _ m apart)
  ]
  step-other (awaits caller callee) d m apart = elim (Option-cases (m.frames callee)) [
    | inl e ↦ rw (e, step, await_task, await_ready) tt
    | inr (f, e) ↦ elim (Bool-cases f.done) [
      | inl y ↦ rw (e, y, step, await_task, await_ready) refl
      | inr y ↦ elim (Option-cases (m.frames caller)) [
        | inl g ↦ rw (e, y, g, step, await_task, await_ready, await_suspend) tt
        | inr (x, g) ↦
            rw (e, y, g, step, await_task, await_ready, await_suspend)
              (rw e (store-other callee d _ m apart))
      ]
    ]
  ]
  step-other (ends o h) d m apart = end_body-other o h d m apart
  step-other (destroys h) d m apart = elim (Option-cases (m.frames h)) [
    | inl e ↦ rw (e, step) tt
    | inr (f, e) ↦ rw (e, step) (store-other h d none m apart)
  ]
  step-other (awaits_promise caller task) d m apart = refl
  step-other (completes h) d m apart = completes-Unchanged h d m

  pub apart_kept :
      (m m₁ : Memory V) {n : Next} (s : Step V) (d : ℕ)
      → step s m ≡ some (n, m₁)
      → (target s == d) ≡ false
      → m₁.frames d ≡ m.frames d
  apart_kept m m₁ s d e miss = rw e at (step-other s d m (miss_ne (target s) d miss))

  pub passed :
      (m m₁ : Memory V) {n : Next} (s : Step V) (d : ℕ)
      → step s m ≡ some (n, m₁)
      → is_about d s ≡ false
      → m₁.frames d ≡ m.frames d
  passed m m₁ (completes h) d e miss = rw e at (completes-Unchanged h d m)
  passed m m₁ (makes h) d e miss = apart_kept m m₁ (makes h) d e miss
  passed m m₁ (launches x h) d e miss = apart_kept m m₁ (launches x h) d e miss
  passed m m₁ (runs x h) d e miss = apart_kept m m₁ (runs x h) d e miss
  passed m m₁ (awaits c h) d e miss = apart_kept m m₁ (awaits c h) d e miss
  passed m m₁ (ends o h) d e miss = apart_kept m m₁ (ends o h) d e miss
  passed m m₁ (destroys h) d e miss = apart_kept m m₁ (destroys h) d e miss
  passed m m₁ (awaits_promise c h) d e miss = apart_kept m m₁ (awaits_promise c h) d e miss

  -- The next step about the frame `d` finds it as it was at the start.
  pub next_step :
      {m m' : Memory V} {log : List (Step V × Next)} (d : ℕ) (s : Step V) (ss : List (Step V))
      → Runs m log m'
      → steps_of d log ≡ s ∷ ss
      → (n : Next) × (m₁ : Memory V) × (m₂ : Memory V) × (log₂ : List (Step V × Next)) × (m₁.frames
            d
          ≡ m.frames d)
        × (step s m₁ ≡ some (n, m₂))
        × Runs m₂ log₂ m'
        × (steps_of d log₂ ≡ ss)
        × (nexts_of d log ≡ n ∷ nexts_of d log₂)
  next_step d s ss stops e = cc
  next_step {m} d s ss (goes {m₁} {log} s' n' e' r) e = elim (Bool-cases (is_about d s')) [
    | inl hit ↦
        let (same, rest) = same_cons (rw hit at e) in
        (n', m, m₁, log, refl, rw (← same) e', r, rest, rw hit refl)
    | inr miss ↦
        let (n, m₂, m₃, log₂, f, g, r', t, u) = next_step d s ss r (rw miss at e) in
        (n, m₂, m₃, log₂, f ∙ passed _ _ s' d e' miss, g, r', t, rw miss u)
  ]

  pub no_more :
      {m m' : Memory V} {log : List (Step V × Next)} (d : ℕ)
      → Runs m log m'
      → steps_of d log ≡ []
      → (m'.frames d ≡ m.frames d) × (nexts_of d log ≡ [])
  no_more d stops e = (refl, refl)
  no_more {m} d (goes {m₁} {log} s' n' e' r) e = elim (Bool-cases (is_about d s')) [
    | inl hit ↦ absurd (cons_ne_nil (rw hit at e))
    | inr miss ↦ let (f, g) = no_more d r (rw miss at e) in (f ∙ passed _ _ s' d e' miss, rw miss g)
  ]
