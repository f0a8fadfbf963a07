-- ===== src/Coro/Program/Invariant/Turns.antt =====
-- Each thing that a coroutine does keeps the invariant.
use kk_proxy.Common.{
  ℕ, ◌<◌, ◌≡◌, ◌≢◌, inl, inr, refl, sym, subst, ◌∙◌, Bool, true, false, Bool-cases, Option, some,
  List, ℤ, negsuc, arith, some-injective, ltb,
}
use kk_proxy.Uring.Loop.{UserData}
use kk_proxy.Coro.Task.{Frame, Memory, Got, store}
use kk_proxy.Coro.Task.Laws.{store-same, store-other}
use kk_proxy.Coro.Program.{
  Body, acts, awaits_io, awaits_task, Rest, at_start, with_io, with_task, Control, going, Machine,
  new_frame, put, call_task, go,
}
use kk_proxy.Coro.Program.Invariant.{
  Mode, ready, parked_io, parked_task, is_live, set_mode, RestIs, Inv,
}
use kk_proxy.Coro.Program.Invariant.Moves.{set_mode-same, not_parked, aim, leave}
use kk_proxy.Coro.Program.Invariant.Changes.{by_place}
use kk_proxy.Coro.Program.Invariant.Made.{allocate}
use kk_proxy.Coro.Program.Invariant.Queues.{submit}
use kk_proxy.Coro.Program.Ticks.{await_task-new}
use kk_proxy.Coro.Program.Ran.{put-same, put-other}

-- The memory with one new frame that was changed at once.
pub twice :
    {V : Type 0} (n : ℕ) (f f' : Frame V) (m : Memory V) (a : ℕ)
    → a ≢ n
    → (store n (some f') (store n (some f) m)).frames a ≡ m.frames a
twice n f f' m a apart =
    store-other n a (some f') (store n (some f) m) apart ∙ store-other n a (some f) m apart

module _ {V E : Type 0} where
  -- The invariant of a machine with this control.
  abbrev pub HoldsAt : Control V E → Machine V E → Type 0
  HoldsAt c w =
      (mode : ℕ → Mode) × (J : ℕ → Bool) × Inv mode J c w.memory.frames w.rests w.next w.submitted
        w.launchers

  abbrev pub Holds : Machine V E → Type 0
  Holds w = HoldsAt w.control w

  pub go-acts :
      (full : Bool) (h : ℕ) (e : E) (b : Body V E) (s : Machine V E)
      → HoldsAt (going h (acts e b)) s
      → Holds (go full h (acts e b) s)
  unfolding go
  go-acts full h e b s (mode, known, i) = (mode, known, aim (going h b) i.control_is i)

  pub go-awaits_io :
      (full : Bool) (h : ℕ) (k : ℤ → Body V E) (s : Machine V E)
      → HoldsAt (going h (awaits_io k)) s
      → Holds (go full h (awaits_io k) s)
  unfolding go
  go-awaits_io true h k s (mode, known, i) =
      let (runs, scoped) = i.control_is in
      (mode, known, aim (going h (k (negsuc 10085))) (runs, scoped (negsuc 10085)) i)
  go-awaits_io false h k s (mode, known, i) =
      let (runs, scoped) = i.control_is in
      let x = parked_io in
      (
        set_mode h x mode,
        known,
        submit h (set_mode-same h x mode)
            (not_parked h mode s.submitted (λ e. cc (sym runs ∙ e)) i.queue)
            (leave h x (put h (with_io k) s.rests) runs
              (subst (RestIs known s.next x) (sym (put-same h (with_io k) s.rests)) scoped)
              (λ a. put-other h a (with_io k) s.rests) i),
      )

  -- A coroutine that is somewhere is below the next new address.
  pub below_next :
      {mode : ℕ → Mode} {J : ℕ → Bool} {next : ℕ} {c : Control V E} {frames : ℕ → Option (Frame V)}
      {rests : ℕ → Option (Rest V E)} {ds : List UserData} {ls : List (ℕ × Body V E)} (h : ℕ)
      → is_live (mode h) ≡ true
      → Inv mode J c frames rests next ds ls
      → h < next
  below_next {mode} {next} h alive i = elim (Bool-cases (ltb h next)) [
    | inl y ↦ ground arith
    | inr y ↦ cc (rw (i.unused h (ground arith)) at alive)
  ]

  -- The rests after a coroutine is made and another one waits for it.
  module _ (h next : ℕ) (r : Rest V E) (b : Body V E) (rests : ℕ → Option (Rest V E))
      (apart : h ≢ next) where
    abbrev waiting : ℕ → Option (Rest V E)
    waiting = put h r (put next (at_start b) rests)

    waiting-next : waiting next ≡ some (at_start b)
    waiting-next =
        put-other h next r (put next (at_start b) rests) (λ e. apart (sym e))
        ∙ put-same next (at_start b) rests

    waiting-other : (a : ℕ) → a ≢ next → waiting a ≡ put h r rests a
    waiting-other =
        by_place (λ a. a ≢ next → waiting a ≡ put h r rests a) h
          (λ n. put-same h r (put next (at_start b) rests) ∙ sym (put-same h r rests))
          (λ a m n.
            put-other h a r (put next (at_start b) rests) m
            ∙ put-other next a (at_start b) rests n
            ∙ sym (put-other h a r rests m))

  pub go-awaits_task :
      (full : Bool) (h : ℕ) (b : Body V E) (k : Got V → Body V E) (s : Machine V E)
      → HoldsAt (going h (awaits_task b k)) s
      → Holds (go full h (awaits_task b k) s)
  unfolding go
  go-awaits_task full h b k s (mode, known, i) =
      let (runs, (first, then')) = i.control_is in
      let n = s.next in
      let x = parked_task n in
      let (c, e, y) = i.live h (rw runs refl) in
      let h<n = below_next h (rw runs refl) i in
      let apart : h ≢ n = λ q. absurd (omega (arith, h<n, q)) in
      let f : Frame V = record new_frame { caller = some h; context = c.context } in
      let m₁ : Memory V = store n (some new_frame) s.memory in
      let left =
        leave h x (put h (with_task n k) s.rests) runs
          (subst (RestIs known n x) (sym (put-same h (with_task n k) s.rests))
            (refl, i.started, then'))
          (λ a. put-other h a (with_task n k) s.rests) i in
      let all =
        allocate f b (store n (some f) m₁).frames (waiting h n (with_task n k) b s.rests apart)
          (store-same n (some f) m₁) (twice n new_frame f s.memory)
          (waiting-next h n (with_task n k) b s.rests apart)
          (waiting-other h n (with_task n k) b s.rests apart) refl (inr (h, refl))
          (λ a q. rw (← some-injective _ _ q) (set_mode-same h x mode)) first left in
      subst Holds
        (sym (
          await_task-new h n k c (call_task b s)
            (store-other n h (some new_frame) s.memory apart ∙ e)
            (store-same n (some new_frame) s.memory)))
        (set_mode n ready (set_mode h x mode), known, all)
