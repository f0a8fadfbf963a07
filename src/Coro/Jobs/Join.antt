-- ===== src/Coro/Jobs/Join.antt =====
-- A launched task that any number of coroutines await, before and after its end.
use kk_proxy.Common.{ℕ, ◌≡◌, ap, ◌∙◌, true, Option, none, some, List, [], ◌∷◌, ◌++◌, map}
use kk_proxy.Coro.Task.{Memory, Next, resume, noop, Outcome, await_ready, get_value}
use kk_proxy.Coro.Task.Laws.{result_of, get_value_lem, await_ready_lem}
use kk_proxy.Coro.Jobs.{Step, makes, launches, awaits, ends, step, Runs, steps_of, nexts_of}
use kk_proxy.Coro.Jobs.Other.{next_step, no_more}
use kk_proxy.Coro.Jobs.Phases.{
  waker, Waits, HasEnded, await_task-Waits, await_task-HasEnded, end_body-Waits, makes-new,
  launch-Waits,
}

abbrev pub last : Option ℕ → List ℕ → Option ℕ
last w [] = w
last w (c ∷ cs) = last (some c) cs

cons : {A : Type 0} {x y : A} {xs ys : List A} → x ≡ y → xs ≡ ys → x ∷ xs ≡ y ∷ ys
cons e f = cc

module _ {V : Type 0} where
  -- The coroutines that await the task before its end, the end, and those that await it later.
  abbrev pub life : (d : ℕ) → Outcome V → (before late : List ℕ) → List (Step V)
  life d o before late = map (λ c. awaits c d) before ++ (ends o d ∷ map (λ c. awaits c d) late)

  join_late :
      (d : ℕ) (o : Outcome V) (late : List ℕ) {m m' : Memory V} {log : List (Step V × Next)}
      → Runs m log m'
      → HasEnded o (m.frames d)
      → steps_of d log ≡ map (λ c. awaits c d) late
      → (nexts_of d log ≡ map (λ c. resume c) late) × HasEnded o (m'.frames d)
  unfolding step
  join_late d o [] r (f, x, y, v) e = let (p, q) = no_more d r e in (q, (f, p ∙ x, y, v))
  join_late d o (c ∷ late) r (f, x, y, v) e =
      let (n, m₁, m₂, log₂, p, g, r', t, u) =
        next_step d (awaits c d) (map (λ c. awaits c d) late) r e in
      let (same, ended') = await_task-HasEnded c d o m₁ m₂ n (f, p ∙ x, y, v) g in
      let (rest, kept) = join_late d o late r' ended' t in (u ∙ cons same rest, kept)

  join_from :
      (d : ℕ) (o : Outcome V) (before late : List ℕ) (w : Option ℕ) {m m' : Memory V}
      {log : List (Step V × Next)}
      → Runs m log m'
      → Waits w (m.frames d)
      → steps_of d log ≡ life d o before late
      → (nexts_of d log
          ≡ map (λ c. noop) before ++ (waker (last w before) ∷ map (λ c. resume c) late))
        × HasEnded o (m'.frames d)
  unfolding step
  join_from d o [] late w r (f, x, y, cl, dm, cw) e =
      let (n, m₁, m₂, log₂, p, g, r', t, u) =
        next_step d (ends o d) (map (λ c. awaits c d) late) r e in
      let (same, ended') = end_body-Waits d o w m₁ m₂ n (f, p ∙ x, y, cl, dm, cw) g in
      let (rest, kept) = join_late d o late r' ended' t in (u ∙ cons same rest, kept)
  join_from d o (c ∷ before) late w r (f, x, y, cl, dm, cw) e =
      let (n, m₁, m₂, log₂, p, g, r', t, u) = next_step d (awaits c d) (life d o before late) r e in
      let (same, waits') = await_task-Waits c d w m₁ m₂ n (f, p ∙ x, y, cl, dm, cw) g in
      let (rest, kept) = join_from d o before late (some c) r' waits' t in
      (u ∙ cons same rest, kept)

  -- A program makes a task, launches it, and any coroutines await it where it stays, some before and
  -- some after its end, while anything happens to other tasks in between, and the loop may resume any
  -- coroutine for a completion, the task among them. The task starts at once when
  -- it is launched. A coroutine that awaits it after its end goes on at once. One that awaits it before is
  -- suspended, and at the end the last of these is resumed, and no other. The value, or the exception,
  -- is there to the end.
  pub launched_join :
      {m m' : Memory V} {log : List (Step V × Next)} (context d : ℕ) (o : Outcome V)
      (before late : List ℕ)
      → Runs m log m'
      → steps_of d log ≡ makes d ∷ launches context d ∷ life d o before late
      → (nexts_of d log
          ≡ noop
            ∷ resume d
            ∷ (map (λ c. noop) before ++ (waker (last none before) ∷ map (λ c. resume c) late)))
        × (get_value d m' ≡ some (result_of o))
        × (await_ready (some d) m' ≡ some true)
  unfolding step
  launched_join context d o before late r e =
      let (n, m₁, m₂, log₂, p, g, r', t, u) = next_step d (makes d) _ r e in
      let (n', m₃, m₄, log₃, p', g', r'', t', u') = next_step d (launches context d) _ r' t in
      let (made, new) = makes-new d m₁ m₂ n g in
      let (same, waits) = launch-Waits context d m₃ m₄ n' (p' ∙ new) g' in
      let (rest, (f, x, y, v)) = join_from d o before late none r'' waits t' in
      (
        u ∙ cons made (u' ∙ cons same rest),
        get_value_lem d f _ x ∙ ap some v,
        await_ready_lem d f _ x ∙ ap some y,
      )
