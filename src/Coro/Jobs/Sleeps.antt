-- ===== src/Coro/Jobs/Sleeps.antt =====
-- What becomes of a coroutine that awaits a `coro::promise`.
use kk_proxy.Common.{
  ℕ, ◌≡◌, ◌≢◌, inl, inr, refl, ap, Bool, false, Bool-cases, some, List, [], ◌∷◌, ◌==◌, ◌||◌, arith,
}
use kk_proxy.Coro.Task.{Memory, Next, resume, noop}
use kk_proxy.Coro.Jobs.{
  Step, makes, launches, awaits, ends, destroys, awaits_promise, runs, completes, target, step,
  Runs, stops, goes,
}
use kk_proxy.Coro.Jobs.Effect.{step-Effect}
use kk_proxy.Coro.Jobs.Callers.{caller_of, step-caller, Local, Effect-Local}

abbrev pub is_resume : ℕ → Next → Bool
is_resume c (resume h) = h == c
is_resume c noop = false

or_false : (a b : Bool) → (a || b) ≡ false → (a ≡ false) × (b ≡ false)
or_false a b e = ground arith

or_no : (a b : Bool) → a ≡ false → b ≡ false → (a || b) ≡ false
or_no a b e f = ground arith

module _ {V : Type 0} where
  -- Whether a step asks for the coroutine `c`: it is launched or run by
  -- `block_run`, an entry of its is completed, it awaits a task, or it is awaited.
  abbrev pub calls : ℕ → Step V → Bool
  calls c (launches context h) = h == c
  calls c (runs context h) = h == c
  calls c (completes h) = h == c
  calls c (awaits caller callee) = (caller == c) || (callee == c)
  calls c _ = false

  abbrev pub calls_in : ℕ → List (Step V × Next) → Bool
  calls_in c [] = false
  calls_in c ((s, n) ∷ log) = calls c s || calls_in c log

  abbrev pub resumes : ℕ → List (Step V × Next) → Bool
  resumes c [] = false
  resumes c ((s, n) ∷ log) = is_resume c n || resumes c log

  not_resumed :
      (c : ℕ) (s : Step V) (n : Next) (m m₁ : Memory V)
      → ((d : ℕ) → caller_of (m.frames d) ≢ some c)
      → step s m ≡ some (n, m₁)
      → calls c s ≡ false
      → is_resume c n ≡ false
  not_resumed c s noop m m₁ none_waits did quiet = refl
  not_resumed c s (resume h) m m₁ none_waits did quiet = elim (Bool-cases (h == c)) [
    | inr other ↦ other
    | inl hit ↦
        let same : h ≡ c = ground arith in
        absurd (
          local s (Effect-Local c (step-Effect s (resume h) m m₁ did) (ap (λ z. resume z) same))
            quiet)
  ]
    where
      local : (s : Step V) → Local c (m.frames (target s)) s → calls c s ≡ false → ⊥
      local (launches context h) l q = ground arith
      local (runs context h) l q = ground arith
      local (completes h) l q = ground arith
      local (awaits caller callee) l q = ground arith
      local (ends o h) l q = none_waits h l
      local (makes h) l q = l
      local (destroys h) l q = l
      local (awaits_promise caller task) l q = l

  still_none :
      (c : ℕ) (s : Step V) (n : Next) (m m₁ : Memory V)
      → ((d : ℕ) → caller_of (m.frames d) ≢ some c)
      → step s m ≡ some (n, m₁)
      → calls c s ≡ false
      → (d : ℕ) → caller_of (m₁.frames d) ≢ some c
  still_none c s n m m₁ none_waits did quiet d e = elim (step-caller s c d m m₁ did e) [
    | inl old ↦ none_waits d old
    | inr new ↦ awaited (rw new at quiet)
  ]
    where
      awaited : (((c == c) || (d == c)) ≡ false) → ⊥
      awaited q = ground arith

  stays_asleep :
      (c : ℕ) {m m' : Memory V} {log : List (Step V × Next)}
      → ((d : ℕ) → caller_of (m.frames d) ≢ some c)
      → Runs m log m'
      → calls_in c log ≡ false
      → resumes c log ≡ false
  stays_asleep c none_waits stops quiet = refl
  stays_asleep c {m} none_waits (goes {m₁} {log} s n did r) quiet =
      let (now, later) = or_false (calls c s) (calls_in c log) quiet in
      or_no (is_resume c n) (resumes c log) (not_resumed c s n m m₁ none_waits did now)
        (stays_asleep c (still_none c s n m m₁ none_waits did now) r later)

  -- A coroutine that no frame has as its caller awaits a promise of a task. It is suspended, and whatever the
  -- program does then, the end of that task included, no step resumes it, unless it is launched,
  -- started by `block_run`, resumed by the loop for a completion, awaits a task, or is itself awaited.
  pub promise_sleeps :
      (c task : ℕ) {m m' : Memory V} {n : Next} {log : List (Step V × Next)}
      → ((d : ℕ) → caller_of (m.frames d) ≢ some c)
      → Runs m ((awaits_promise c task, n) ∷ log) m'
      → calls_in c log ≡ false
      → resumes c ((awaits_promise c task, n) ∷ log) ≡ false
  promise_sleeps c task none_waits r quiet = stays_asleep c none_waits r quiet
