-- ===== src/Coro/Jobs/Callers.antt =====
-- What the frames of a program keep of its steps: who awaited a task last, and whether it has ended.
use mathlib.Core.List.{Memᴰ}
use kk_proxy.Common.{
  ℕ, ◌≡◌, ◌⊎◌, inl, inr, refl, sym, subst, ap, ◌∙◌, Bool, true, false, Bool-cases, Option, none,
  some, List, [], ◌∷◌, ◌==◌, arith, some-injective,
}
use kk_proxy.Coro.Flag.{is_daemon}
use kk_proxy.Coro.Task.{Frame, Memory, Next, resume, Outcome}
use kk_proxy.Coro.Task.Laws.{ended_caller}
use kk_proxy.Coro.Jobs.{
  Step, launches, runs, awaits, ends, completes, target, step, Runs, stops, goes,
}
use kk_proxy.Coro.Jobs.Other.{apart_kept}
use kk_proxy.Coro.Jobs.Effect.{
  Effect, made, launched, began, went_on, goes_on, waits, wakes, stays, goes_away, destroyed,
  promised, step-Effect,
}

module _ {V : Type 0} where
  -- The coroutine that the end of a task will resume.
  abbrev pub caller_of : Option (Frame V) → Option ℕ
  caller_of none = none
  caller_of (some f) = f.caller

  abbrev pub is_done : Option (Frame V) → Bool
  is_done none = false
  is_done (some f) = f.done

  Effect-caller :
      {s : Step V} {n : Next} {x y : Option (Frame V)} (c : ℕ)
      → Effect s n x y
      → caller_of y ≡ some c
      → (caller_of x ≡ some c) ⊎ (s ≡ awaits c (target s))
  Effect-caller c made e = cc
  Effect-caller c (launched f) e = inl e
  Effect-caller c (began f) e = inl e
  Effect-caller c (goes_on f d) e = inl e
  Effect-caller c (waits {h} f x) e = inr (ap (λ z. awaits z h) (some-injective _ _ e))
  Effect-caller c (wakes {o} f w g) e = inl (sym (ended_caller o f) ∙ e)
  Effect-caller c (stays {o} f) e = inl (sym (ended_caller o f) ∙ e)
  Effect-caller c (goes_away f) e = cc
  Effect-caller c (destroyed f) e = cc
  Effect-caller c promised e = inl e
  Effect-caller c (went_on f) e = inl e

  Effect-done :
      {s : Step V} {n : Next} {x y : Option (Frame V)}
      → Effect s n x y
      → is_done y ≡ true
      → (is_done x ≡ true) ⊎ ((o : Outcome V) × (s ≡ ends o (target s)))
  Effect-done made e = cc
  Effect-done (launched f) e = inl e
  Effect-done (began f) e = inl e
  Effect-done (goes_on f d) e = inl e
  Effect-done (waits f x) e = inl e
  Effect-done (wakes {o} f w g) e = inr (o, refl)
  Effect-done (stays {o} f) e = inr (o, refl)
  Effect-done (goes_away f) e = cc
  Effect-done (destroyed f) e = cc
  Effect-done promised e = inl e
  Effect-done (went_on f) e = inl e

  -- A frame that is not the step's is as before.
  step-kept :
      {B : Type 0} (get : Option (Frame V) → B) (b : B) (W : Type 0) (s : Step V) (d : ℕ)
      (m m₁ : Memory V) {n : Next}
      → step s m ≡ some (n, m₁)
      → (Effect s n (m.frames (target s)) (m₁.frames (target s))
          → get (m₁.frames (target s)) ≡ b
          → (get (m.frames (target s)) ≡ b) ⊎ (target s ≡ d → W))
      → get (m₁.frames d) ≡ b
      → (get (m.frames d) ≡ b) ⊎ W
  step-kept get b W s d m m₁ did at q = elim (Bool-cases (target s == d)) [
    | inr miss ↦ inl (ap get (sym (apart_kept m m₁ s d did miss)) ∙ q)
    | inl hit ↦
        let same : target s ≡ d = ground arith in
        elim (at (step-Effect s _ m m₁ did) (subst (λ z. get (m₁.frames z) ≡ b) (sym same) q)) [
          | inl old ↦ inl (subst (λ z. get (m.frames z) ≡ b) same old)
          | inr new ↦ inr (new same)
        ]
  ]

  pub step-caller :
      (s : Step V) (c d : ℕ) (m m₁ : Memory V) {n : Next}
      → step s m ≡ some (n, m₁)
      → caller_of (m₁.frames d) ≡ some c
      → (caller_of (m.frames d) ≡ some c) ⊎ (s ≡ awaits c d)
  step-caller s c d m m₁ did =
      step-kept caller_of (some c) (s ≡ awaits c d) s d m m₁ did (λ effect q.
        elim (Effect-caller c effect q) [
          | inl old ↦ inl old
          | inr new ↦ inr (λ same. new ∙ ap (λ z. awaits c z) same)
        ])

  step-done :
      (s : Step V) (d : ℕ) (m m₁ : Memory V) {n : Next}
      → step s m ≡ some (n, m₁)
      → is_done (m₁.frames d) ≡ true
      → (is_done (m.frames d) ≡ true) ⊎ ((o : Outcome V) × (s ≡ ends o d))
  step-done s d m m₁ did =
      step-kept is_done true ((o : Outcome V) × (s ≡ ends o d)) s d m m₁ did (λ effect q.
        elim (Effect-done effect q) [
          | inl old ↦ inl old
          | inr (o, new) ↦ inr (λ same. (o, new ∙ ap (λ z. ends o z) same))
        ])

  abbrev pub steps_in : List (Step V × Next) → List (Step V)
  steps_in [] = []
  steps_in ((s, n) ∷ log) = s ∷ steps_in log

  pub caller_awaited :
      {m m' : Memory V} {log : List (Step V × Next)} (c d : ℕ)
      → Runs m log m'
      → caller_of (m'.frames d) ≡ some c
      → (caller_of (m.frames d) ≡ some c) ⊎ Memᴰ (awaits c d) (steps_in log)
  caller_awaited c d stops e = inl e
  caller_awaited {m} c d (goes {m₁} s n did r) e = elim (caller_awaited c d r e) [
    | inr later ↦ inr (Memᴰ.tail later)
    | inl now ↦ elim (step-caller s c d m m₁ did now) [
      | inl old ↦ inl old
      | inr new ↦ inr (Memᴰ.head (sym new))
    ]
  ]

  pub done_ended :
      {m m' : Memory V} {log : List (Step V × Next)} (d : ℕ)
      → Runs m log m'
      → is_done (m'.frames d) ≡ true
      → (is_done (m.frames d) ≡ true) ⊎ ((o : Outcome V) × Memᴰ (ends o d) (steps_in log))
  done_ended d stops e = inl e
  done_ended {m} d (goes {m₁} s n did r) e = elim (done_ended d r e) [
    | inr (o, later) ↦ inr (o, Memᴰ.tail later)
    | inl now ↦ elim (step-done s d m m₁ did now) [
      | inl old ↦ inl old
      | inr (o, new) ↦ inr (o, Memᴰ.head (sym new))
    ]
  ]

  -- The same as `Cause`, read off the frame that the step is about.
  abbrev pub Local : ℕ → Option (Frame V) → Step V → Type 0
  Local c x (launches context h) = h ≡ c
  Local c x (runs context h) = h ≡ c
  Local c x (awaits caller callee) = ((caller ≡ c) × (is_done x ≡ true)) ⊎ (callee ≡ c)
  Local c x (ends o h) = caller_of x ≡ some c
  Local c x (completes h) = h ≡ c
  Local c x _ = ⊥

  pub Effect-Local :
      {s : Step V} {n : Next} {x y : Option (Frame V)} (c : ℕ)
      → Effect s n x y
      → n ≡ resume c
      → Local c x s
  Effect-Local c made e = cc
  Effect-Local c (launched f) e = cc
  Effect-Local c (began f) e = cc
  Effect-Local c (goes_on f d) e = inl (cc, d)
  Effect-Local c (waits f x) e = elim (Bool-cases (is_daemon f.flags)) [
    | inl y ↦ cc (rw y at e)
    | inr y ↦ inr (cc (rw y at e))
  ]
  Effect-Local c (wakes f w g) e = cc
  Effect-Local c (stays f) e = cc
  Effect-Local c (goes_away f) e = cc
  Effect-Local c (destroyed f) e = cc
  Effect-Local c promised e = cc
  Effect-Local c (went_on f) e = cc
