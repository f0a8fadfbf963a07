-- ===== src/Coro/Program/Awaiting.antt =====
-- A coroutine that awaits a new task, from the `co_await` to the value that it gets.
use kk_proxy.Common.{
  ◌⊎◌, inl, inr, sym, none, ◌≤◌, ◌+◌, ℕ, suc, ◌<◌, ◌≡◌, ◌≢◌, refl, ap, ◌∙◌, some, ◌++◌, arith,
}
use kk_proxy.Coro.Task.{Frame, resume, Got, store, ended}
use kk_proxy.Coro.Task.Laws.{result_of, get_value_lem, store-same, store-other, value_of-ended}
use kk_proxy.Coro.Program.{Body, ends, awaits_task, at_start, with_task, going, to, new_frame, put}
use kk_proxy.Coro.Program.Eval.{Run}
use kk_proxy.Coro.Program.Ticks.{
  Reaches, here, then_on, Reaches-trans, tick-at_start, tick-with_task, tick-ends, tick-awaits_task,
  awaited, with_callee,
}
use kk_proxy.Coro.Program.Ran.{Point, now, Ran, put-same, put-other, Ran-before}

≡-cases : (m n : ℕ) → (m ≡ n) ⊎ (m ≢ n)
≡-cases m n = ground arith

module _ {V E : Type 0} where
  -- The coroutine `h`, with the frame `c`, awaits a new task with the body `b`.
  module _ (h : ℕ) (b : Body V E) (k : Got V → Body V E) (c : Frame V) (p : Point V E)
      (inside : h < p.next) (there : p.m.frames h ≡ some c) where
    abbrev pub callee : Frame V
    callee = awaited h p.m p.rests p.next p.tr p.stored p.n p.rs c

    abbrev pub called : Point V E
    called = record p {
      m = with_callee h p.m p.rests p.next p.tr p.stored p.n p.rs c;
      rests = put h (with_task p.next k) (put p.next (at_start b) p.rests);
      next = suc p.next;
    }

    pub called-frames : called.m.frames p.next ≡ some callee
    called-frames = store-same p.next (some callee) (store p.next (some new_frame) p.m)

    pub Reaches-called : Reaches (now (going h (awaits_task b k)) p) (now (going p.next b) called)
    Reaches-called =
        let apart : h ≢ p.next = λ e. absurd (omega (arith, e, inside)) in
        let apart' : p.next ≢ h = λ e. absurd (omega (arith, e, inside)) in
        let goal = now (going p.next b) called in
        let handed = now (to (resume p.next)) called in
        then_on (now (going h (awaits_task b k)) p) handed goal
          (tick-awaits_task h p.m p.rests p.next p.tr p.stored p.n p.rs b k c apart there)
          (then_on handed goal goal
            (tick-at_start p.next called.m called.rests called.next p.tr p.stored p.n p.rs b (
              put-other h p.next (with_task p.next k) (put p.next (at_start b) p.rests) apart'
              ∙ put-same p.next (at_start b) p.rests))
            (here goal))

    -- The task has ended, and control is back.
    module _ (r : Run V E) (ran : Ran p.next b called r) where
      abbrev pub back : Point V E
      back = record ran.q { m = store p.next (some (ended r.0 callee)) ran.q.m }

      pub Reaches-back :
          Reaches (now (going h (awaits_task b k)) p) (now (going h (k (result_of r.0))) back)
      Reaches-back =
          let q = ran.q in
          let apart : h ≢ p.next = λ e. absurd (omega (arith, e, inside)) in
          let goal = now (going h (k (result_of r.0))) back in
          let ending = now (going p.next (ends r.0)) q in
          let handed = now (to (resume h)) back in
          let ready = store-same p.next (some (ended r.0 callee)) q.m in
          Reaches-trans (now (going h (awaits_task b k)) p) ending goal
            (Reaches-trans (now (going h (awaits_task b k)) p) (now (going p.next b) called) ending
              Reaches-called ran.reaches)
            (then_on ending handed goal
              (tick-ends p.next q.m q.rests q.next q.tr q.stored q.n q.rs r.0 callee h
                (ran.keeps.frames p.next (omega arith) ∙ called-frames) refl)
              (then_on handed goal goal
                (tick-with_task h back.m q.rests q.next q.tr q.stored q.n q.rs p.next k
                  (result_of r.0)
                  (ran.keeps.others h (omega (arith, inside)) apart
                    ∙ put-same h (with_task p.next k) (put p.next (at_start b) p.rests))
                  (get_value_lem p.next (ended r.0 callee) back.m ready
                    ∙ ap some (value_of-ended r.0 callee refl)))
                (here goal)))

      pub back-frames : (a : ℕ) → a < p.next → back.m.frames a ≡ p.m.frames a
      back-frames a l =
          let n : a ≢ p.next = λ e. absurd (omega (arith, e, l)) in
          store-other p.next a (some (ended r.0 callee)) ran.q.m n
          ∙ ran.keeps.frames a (omega (arith, l))
          ∙ store-other p.next a (some callee) (store p.next (some new_frame) p.m) n
          ∙ store-other p.next a (some new_frame) p.m n

      -- The frame of the task stays.
      back-new_frames : (a : ℕ) → p.next ≤ a → a < back.next → back.m.frames a ≢ none
      back-new_frames a l s = elim (≡-cases a p.next) [
        | inl same ↦ λ e. absurd (
            cc (
              ap (λ x. back.m.frames x) same ∙ store-same p.next (some (ended r.0 callee)) ran.q.m,
              e,
            ))
        | inr apart ↦ λ e.
            ran.keeps.new_frames a (omega (arith, l, apart)) s
              (sym (store-other p.next a (some (ended r.0 callee)) ran.q.m apart) ∙ e)
      ]

      pub back-rests : (a : ℕ) → a < p.next → a ≢ h → back.rests a ≡ p.rests a
      back-rests a l apart =
          let n : a ≢ p.next = λ e. absurd (omega (arith, e, l)) in
          ran.keeps.others a (omega (arith, l)) n
          ∙ put-other h a (with_task p.next k) (put p.next (at_start b) p.rests) apart
          ∙ put-other p.next a (at_start b) p.rests n

      pub Ran-task :
          (r' : Run V E)
          → Ran h (k (result_of r.0)) back r'
          → Ran h (awaits_task b k) p (r'.0, r'.1, r.2 ++ r'.2, suc r.3 + r'.3)
      Ran-task r' ran' =
          Ran-before h (awaits_task b k) (k (result_of r.0)) p back r.2 (suc r.3) r' Reaches-back
            ran.seen (omega (arith, ran.allocated))
            (record {
              grows = omega (arith, ran.keeps.grows);
              frames = back-frames;
              others = back-rests;
              finished = ran.keeps.finished;
              new_frames = back-new_frames;
            })
            ran'
