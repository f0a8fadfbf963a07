-- ===== src/Coro/Program/Invariant/Ending.antt =====
-- The end of a coroutine keeps the invariant.
use kk_proxy.Common.{
  ℕ, ◌-◌, ◌<◌, ◌≡◌, ◌≢◌, inl, inr, refl, sym, subst, ap, ◌∙◌, Bool, false, ◌&&◌, ltb, Bool-cases,
  Option, none, some, length, arith, some-injective, Option-cases,
}
use kk_proxy.Coro.Flag.{is_daemon}
use kk_proxy.Coro.Task.{
  Frame, Memory, Next, resume, noop, Outcome, store, ended, task_finish, final_frame, end_body,
}
use kk_proxy.Coro.Task.Laws.{
  store-same, store-other, end_body_lem, ended_caller, ended_flags, ended_done, final_frame-caller,
  final_frame-daemon, final_frame-gone,
}
use kk_proxy.Coro.Program.{
  ends, Rest, at_start, with_io, with_task, going, to, overrun, Machine, guard_finish, after_end,
  go,
}
use kk_proxy.Coro.Program.Invariant.{Mode, running, ready, over, parked_task, set_mode, RestIs, Inv}
use kk_proxy.Coro.Program.Invariant.Moves.{set_mode-same, set_mode-other, aim, remode, leave}
use kk_proxy.Coro.Program.Invariant.Changes.{IsKept, reframe}
use kk_proxy.Coro.Program.Invariant.Queues.{mark, remove}
use kk_proxy.Coro.Program.Invariant.Turns.{HoldsAt, Holds, below_next}

ended_keeps : {V : Type 0} (o : Outcome V) (f : Frame V) → IsKept f → IsKept (ended o f)
ended_keeps o f (inl d) = inl (ap is_daemon (ended_flags o f) ∙ d)
ended_keeps o f (inr (c, e)) = inr (c, ended_caller o f ∙ e)

finished-frames :
    {V : Type 0} (c : Option ℕ) (m : Memory V) (a : ℕ) → (task_finish c m).frames a ≡ m.frames a
finished-frames none m a = refl
finished-frames (some c) m a = refl

module _ {V E : Type 0} where
  -- A property of the machine with and without a free entry for `finish`.
  pub by_guard :
      (full : Bool) (s t : Machine V E) (P : Machine V E → Type 0)
      → P (record s { control = overrun })
      → P t
      → P (guard_finish full s t)
  by_guard full s t P p q =
      elim (Bool-cases (full && ltb (length s.memory.finished) (length t.memory.finished))) [
        | inl e ↦ rw e p
        | inr e ↦ rw e q
      ]

  -- A coroutine that waited for a task goes on when it gets control.
  woken :
      (known : ℕ → Bool) (next d : ℕ) (r : Option (Rest V E))
      → d < next
      → RestIs known next (parked_task d) r
      → RestIs known next ready r
  woken known next d (some (with_task e k)) l (p, q, s) = (omega (arith, p), omega (arith, p), s)
  woken known next d (some (at_start b)) l h = elim h [ ]
  woken known next d (some (with_io k)) l h = elim h [ ]
  woken known next d none l h = elim h [ ]

  module _ (h : ℕ) (o : Outcome V) (s : Machine V E) (f : Frame V) {mode : ℕ → Mode}
      {known : ℕ → Bool} (e : s.memory.frames h ≡ some f) (going_on : f.done ≡ false)
      (runs : mode h ≡ running)
      (i : Inv mode known
        (going h (ends o))
        s.memory.frames
        s.rests
        s.next
        s.submitted
        s.launchers) where
    m₁ : Memory V
    m₁ = store h (some (ended o f)) s.memory

    mode₁ : ℕ → Mode
    mode₁ = set_mode h over mode

    -- The frame keeps the result, and the coroutine is nowhere.
    left : Inv mode₁ known (to noop) m₁.frames s.rests s.next s.submitted s.launchers
    unfolding m₁ mode₁
    left =
        reframe h f (ended o f) m₁.frames e (store-same h (some (ended o f)) s.memory)
          (λ a. store-other h a (some (ended o f)) s.memory)
          (λ l. cc (rw (set_mode-same h over mode) at l)) (ended_keeps o f)
          (λ d. ap is_daemon (ended_flags o f) ∙ d) (λ a y w. cc (sym (ended_done o f) ∙ y))
          (leave h over s.rests runs tt (λ a q. refl) i)

    -- Its caller gets control.
    wakes_caller :
        (c : ℕ)
        → f.caller ≡ some c
        → (mode₂ : ℕ → Mode) × Inv mode₂ known
            (to (resume c))
            m₁.frames
            s.rests
            s.next
            s.submitted
            s.launchers
    unfolding m₁ mode₁
    wakes_caller c w =
        let waits : mode c ≡ parked_task h = i.callers h f c e going_on w in
        let apart : c ≢ h = λ q. cc (sym waits ∙ ap mode q ∙ runs) in
        let now : mode₁ c ≡ parked_task h = set_mode-other h over mode c apart ∙ waits in
        let h<n = below_next h (rw runs refl) i in
        let rest =
          woken known s.next h (s.rests c) h<n
            (subst (λ x. RestIs known s.next x (s.rests c)) waits (i.rests_are c)) in
        (
          set_mode c ready mode₁,
          aim (to (resume c)) (set_mode-same c ready mode₁) (
              remode c ready s.rests (rw now refl) (λ d g p y q. absurd (none_left d g c p y q now))
                rest (λ a q. refl) (λ q. cc (sym now ∙ q)) (λ n l q. cc (sym now ∙ q)) left),
        )
      where
        -- Only the frame that has just ended had it as its caller.
        none_left :
            (d : ℕ) (g : Frame V) (c : ℕ)
            → m₁.frames d ≡ some g
            → g.done ≡ false
            → g.caller ≡ some c
            → mode₁ c ≡ parked_task h
            → ⊥
        none_left d g c p y q now =
            let there : parked_task h ≡ parked_task d = sym now ∙ left.callers d g c p y q in
            let same : d ≡ h = cc there in
            let is : some (ended o f) ≡ some g =
              sym (store-same h (some (ended o f)) s.memory)
              ∙ subst (λ a. m₁.frames a ≡ some g) same p in
            cc (sym (ended_done o f) ∙ ap (λ z. z.done) (some-injective _ _ is) ∙ y)

    -- How many marks a change of the list of finished contexts makes.
    marked :
        {mode₂ : ℕ → Mode} (n : Next) (m : Memory V)
        → Inv mode₂ known (to n) m.frames s.rests s.next s.submitted s.launchers
        → Holds (after_end (some (n, m)) s)
    marked {mode₂} n m j = (mode₂, known, mark (length m.finished - length s.memory.finished) j)

    ends_at : Holds (after_end (some (final_frame h (ended o f) m₁)) s)
    unfolding m₁ mode₁
    ends_at = elim (Option-cases f.caller) [
      | inr (c, w) ↦
          let (mode₂, j) = wakes_caller c w in
          subst (λ p. Holds (after_end (some p) s))
            (sym (final_frame-caller h c (ended o f) m₁ (ended_caller o f ∙ w)))
            (marked (resume c) m₁ j)
      | inl w ↦
          let alone : (ended o f).caller ≡ none = ended_caller o f ∙ w in
          elim (Bool-cases (is_daemon (ended o f).flags)) [
            | inl y ↦
                subst (λ p. Holds (after_end (some p) s))
                  (sym (final_frame-daemon h (ended o f) m₁ alone y)) (marked noop m₁ left)
            | inr y ↦
                let m₂ : Memory V = task_finish (ended o f).context m₁ in
                let same : (a : ℕ) → m₂.frames a ≡ m₁.frames a =
                  finished-frames (ended o f).context m₁ in
                let loose : ¬ IsKept (ended o f) =
                  λ k. elim k [ inl d ↦ cc (sym y ∙ d) | inr (c, q) ↦ cc (sym alone ∙ q) ] in
                subst (λ p. Holds (after_end (some p) s))
                  (sym (final_frame-gone h (ended o f) m₁ alone y))
                  (marked noop (store h none m₂) (
                    remove h (ended o f) (store h none m₂).frames
                      (store-same h (some (ended o f)) s.memory) loose
                      (rw (set_mode-same h over mode) refl) (store-same h none m₂)
                      (λ a n. store-other h a none m₂ n ∙ same a) left))
          ]
    ]

  pub go-ends :
      (full : Bool) (h : ℕ) (o : Outcome V) (s : Machine V E)
      → HoldsAt (going h (ends o)) s
      → Holds (go full h (ends o) s)
  unfolding go m₁
  go-ends full h o s (mode, known, i) =
      let runs = i.control_is.0 in
      let (f, e, y) = i.live h (rw runs refl) in
      by_guard full s (after_end (end_body o h s.memory) s) Holds (mode, known, aim overrun tt i)
        (subst (λ r. Holds (after_end r s)) (sym (end_body_lem o h f s.memory e))
          (ends_at h o s f e y runs i))
