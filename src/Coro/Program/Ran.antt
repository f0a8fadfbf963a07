-- ===== src/Coro/Program/Ran.antt =====
-- A coroutine that comes from one place of its body to the end, and what it leaves alone.
use kk_proxy.Common.{
  ◌⊎◌, inl, inr, subst, none, ◌+◌, ℕ, suc, ◌≤◌, ◌<◌, ◌≡◌, ◌≢◌, refl, sym, ap, ◌∙◌, Option, some,
  List, [], ◌∷◌, ◌++◌, ℤ, arith, append_assoc, append-nil,
}
use kk_proxy.Uring.Loop.{io_data, store_result}
use kk_proxy.Coro.Task.{Memory, noop, Outcome}
use kk_proxy.Coro.Program.{
  Body, ends, acts, awaits_io, Rest, with_io, Control, going, to, System, put, free_at, tick,
}
use kk_proxy.Coro.Program.Eval.{Run}
use kk_proxy.Coro.Program.Ticks.{
  at, Reaches, here, then_on, Reaches-trans, tick-acts, tick-awaits_io, tick-wait,
}

≤-cases : (m n : ℕ) → (n < m) ⊎ (m ≤ n)
≤-cases m n = ground arith

-- A system between two awaits, but for its control: nothing is submitted.
pub record Point (V E : Type 0) : Type 0 where
  pub m : Memory V
  pub rests : ℕ → Option (Rest V E)
  pub next : ℕ
  pub tr : List E
  pub stored : ℕ → ℤ
  pub n : ℕ
  pub rs : List ℤ

module _ {V E : Type 0} where
  abbrev pub now : Control V E → Point V E → System V E
  now c p = at c p.m p.rests p.next [] p.tr p.stored p.n p.rs

  -- What the code of a coroutine leaves alone: the frames that were there, where the others go on, and the
  -- calls of `finish`. No new frame is destroyed.
  pub record Keeps (h : ℕ) (p q : Point V E) : Type 0 where
    pub grows : p.next ≤ q.next
    pub frames : (a : ℕ) → a < p.next → q.m.frames a ≡ p.m.frames a
    pub others : (a : ℕ) → a < p.next → a ≢ h → q.rests a ≡ p.rests a
    pub finished : q.m.finished ≡ p.m.finished
    pub new_frames : (a : ℕ) → p.next ≤ a → a < q.next → q.m.frames a ≢ none

  -- The coroutine `h` has come from `b` to its end.
  pub record Ran (h : ℕ) (b : Body V E) (p : Point V E) (r : Run V E) : Type 0 where
    pub q : Point V E
    pub reaches : Reaches (now (going h b) p) (now (going h (ends r.0)) q)
    pub seen : q.tr ≡ p.tr ++ r.2
    pub rest : q.rs ≡ r.1
    pub allocated : q.next ≡ p.next + r.3
    pub keeps : Keeps h p q

  pub put-same : (h : ℕ) (r : Rest V E) (rests : ℕ → Option (Rest V E)) → put h r rests h ≡ some r
  put-same h r rests = ground arith

  pub put-other :
      (h a : ℕ) (r : Rest V E) (rests : ℕ → Option (Rest V E)) → a ≢ h → put h r rests a ≡ rests a
  put-other h a r rests n = ground arith

  pub Keeps-refl : (h : ℕ) (p : Point V E) → Keeps h p p
  Keeps-refl h p = record {
    grows = omega arith;
    frames = λ a l. refl;
    others = λ a l n. refl;
    finished = refl;
    new_frames = λ a l s. absurd (omega (arith, l, s));
  }

  pub Keeps-trans : (h : ℕ) (p q r : Point V E) → Keeps h p q → Keeps h q r → Keeps h p r
  Keeps-trans h p q r k l = record {
    grows = omega (arith, k.grows, l.grows);
    frames = λ a s. l.frames a (omega (arith, s, k.grows)) ∙ k.frames a s;
    others = λ a s n. l.others a (omega (arith, s, k.grows)) n ∙ k.others a s n;
    finished = l.finished ∙ k.finished;
    new_frames = λ a s t. elim (≤-cases q.next a) [
      | inl old ↦ λ e. k.new_frames a s old (sym (l.frames a old) ∙ e)
      | inr new ↦ l.new_frames a new t
    ];
  }

  pub Ran-ends : (h : ℕ) (o : Outcome V) (p : Point V E) → Ran h (ends o) p (o, p.rs, [], 0)
  Ran-ends h o p = record {
    q = p;
    reaches = here (now (going h (ends o)) p);
    seen = sym (append-nil p.tr);
    rest = refl;
    allocated = omega arith;
    keeps = Keeps-refl h p;
  }

  -- A stretch of ticks before what is known to run.
  pub Ran-before :
      (h : ℕ) (b b' : Body V E) (p p' : Point V E) (t : List E) (n : ℕ) (r : Run V E)
      → Reaches (now (going h b) p) (now (going h b') p')
      → p'.tr ≡ p.tr ++ t
      → p'.next ≡ p.next + n
      → Keeps h p p'
      → Ran h b' p' r
      → Ran h b p (r.0, r.1, t ++ r.2, n + r.3)
  Ran-before h b b' p p' t n r before s new k ran = record {
    q = ran.q;
    reaches =
        Reaches-trans (now (going h b) p) (now (going h b') p') (now (going h (ends r.0)) ran.q)
          before ran.reaches;
    seen = ran.seen ∙ ap (λ x. x ++ r.2) s ∙ append_assoc p.tr t r.2;
    rest = ran.rest;
    allocated = omega (arith, new, ran.allocated);
    keeps = Keeps-trans h p p' ran.q k ran.keeps;
  }

  pub Ran-act :
      (h : ℕ) (e : E) (b : Body V E) (p : Point V E) (r : Run V E)
      → Ran h b (record p { tr = p.tr ++ (e ∷ []) }) r
      → Ran h (acts e b) p (r.0, r.1, (e ∷ []) ++ r.2, 0 + r.3)
  Ran-act h e b p r ran =
      let p' : Point V E = record p { tr = p.tr ++ (e ∷ []) } in
      Ran-before h (acts e b) b p p' (e ∷ []) 0 r
        (then_on (now (going h (acts e b)) p) (now (going h b) p') (now (going h b) p')
          (tick-acts h p.m p.rests p.next p.tr p.stored p.n p.rs e b) (here (now (going h b) p')))
        refl (omega arith)
        (record {
          grows = omega arith;
          frames = λ a l. refl;
          others = λ a l n. refl;
          finished = refl;
          new_frames = λ a l s. absurd (omega (arith, l, s));
        })
        ran

  -- The point where a coroutine has got the result `r` of an awaiter.
  abbrev pub after_io : ℕ → (ℤ → Body V E) → ℤ → List ℤ → Point V E → Point V E
  after_io h k r rs p = record p {
    rests = put h (with_io k) p.rests;
    stored = store_result p.stored h r;
    n = suc p.n;
    rs = rs;
  }

  pub Reaches-after_io :
      (h : ℕ) (k : ℤ → Body V E) (r : ℤ) (rs : List ℤ) (p : Point V E)
      → p.rs ≡ r ∷ rs
      → Reaches (now (going h (awaits_io k)) p) (now (going h (k r)) (after_io h k r rs p))
  Reaches-after_io h k r rs p e =
      let rests' = put h (with_io k) p.rests in
      let goal = now (going h (k r)) (after_io h k r rs p) in
      let waits = at (to noop) p.m rests' p.next (io_data h ∷ []) p.tr p.stored p.n p.rs in
      let waits' = at (to noop) p.m rests' p.next (io_data h ∷ []) p.tr p.stored p.n (r ∷ rs) in
      then_on (now (going h (awaits_io k)) p) waits goal
        (tick-awaits_io h p.m p.rests p.next p.tr p.stored p.n p.rs k)
        (then_on waits goal goal
          (λ q.
            ap
              (λ x.
                tick (free_at q)
                  (at (to noop) p.m rests' p.next (io_data h ∷ []) p.tr p.stored p.n x))
              e
            ∙ tick-wait h p.m rests' p.next p.tr p.stored p.n rs k r
                (put-same h (with_io k) p.rests) q)
          (here goal))

  pub Ran-io :
      (h : ℕ) (k : ℤ → Body V E) (r : ℤ) (rs : List ℤ) (p : Point V E) (run : Run V E)
      → p.rs ≡ r ∷ rs
      → Ran h (k r) (after_io h k r rs p) run
      → Ran h (awaits_io k) p run
  Ran-io h k r rs p run e ran =
      let none_new : 0 + run.3 ≡ run.3 = omega arith in
      subst (λ n. Ran h (awaits_io k) p (run.0, run.1, run.2, n)) none_new
        (Ran-before h (awaits_io k) (k r) p (after_io h k r rs p) [] 0 run
          (Reaches-after_io h k r rs p e) (sym (append-nil p.tr)) (omega arith)
          (record {
            grows = omega arith;
            frames = λ a l. refl;
            others = λ a l n. put-other h a (with_io k) p.rests n;
            finished = refl;
            new_frames = λ a l s. absurd (omega (arith, l, s));
          })
          ran)
