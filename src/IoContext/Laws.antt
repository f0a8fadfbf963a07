-- ===== src/IoContext/Laws.antt =====
-- `finish` makes the loop stop.
use kk_proxy.Common.{ℕ, ◌≡◌, refl, sym, ap, ◌∙◌, false, some, List, [], ◌∷◌, ◌++◌, map, ℤ, pos}
use kk_proxy.Uring.Loop.{completed, Cqe, Wait, arrived, Loop, run}
use kk_proxy.Uring.Loop.Laws.{entry, Unfinished, resumptions, log}
use kk_proxy.Uring.Loop.Waits.{run_resumes}
use kk_proxy.IoContext.{NopRing, IsNopRing, nop_done, finish}

-- A part of a list of arrivals is one too.
split_arrivals :
    (cs : List Cqe) (before after : List Wait)
    → map arrived cs ≡ before ++ after
    → (cs₁ cs₂ : List Cqe) × (cs ≡ cs₁ ++ cs₂)
      × (before ≡ map arrived cs₁)
      × (after ≡ map arrived cs₂)
split_arrivals cs [] after e = ([], cs, refl, refl, sym e)
split_arrivals [] (w ∷ before) after e = cc
split_arrivals (c ∷ cs) (w ∷ before) after e =
    let (cs₁, cs₂, p, q, r) = split_arrivals cs before after (cc) in
    (c ∷ cs₁, cs₂, ap (◌∷◌ c) p, cc, r)

Unfinished-front : (cs₁ cs₂ : List Cqe) → Unfinished (cs₁ ++ cs₂) → Unfinished cs₁
Unfinished-front [] cs₂ u = tt
Unfinished-front (c ∷ cs₁) cs₂ (n, u) = (n, Unfinished-front cs₁ cs₂ u)

module _ {Sqe R : Type 0} (L : NopRing Sqe R) (D : IsNopRing L) where
  open D use {waits}

  -- When `finish` gets an entry, and the coroutines that are resumed submit nothing more, the loop is
  -- sure to stop. It has then resumed the awaiters of some of
  -- the completions that were in flight, in order and once each, namely those that arrived before the
  -- mark, and the others are left unread.
  pub finish_stops :
      (ring : R) (q : Sqe) (cs : List Cqe) (s : Loop (List (ℕ × ℤ)))
      → (L.get_sqe ring).0 ≡ some q
      → waits ring ≡ map arrived cs
      → Unfinished cs
      → (ring' : R) × (cs₁ cs₂ : List Cqe) × (finish L ring ≡ some ring')
        × (cs ≡ cs₁ ++ cs₂)
        × ((run log (waits ring') s).0 ≡ map arrived cs₂)
        × ((run log (waits ring') s).1.running ≡ false)
        × ((run log (waits ring') s).1.world ≡ s.world ++ resumptions cs₁)
  unfolding finish
  finish_stops ring q cs s got flight u =
      let (before, after, w, w') = D.nop_arrives ring q completed got in
      let (cs₁, cs₂, p, b, a) = split_arrivals cs before after (sym flight ∙ w) in
      let ring' = L.submit (L.prep_nop q (L.set_data q completed (L.get_sqe ring).1)) in
      let arrives : waits ring'
          ≡ map arrived cs₁ ++ (arrived (entry completed (pos 0)) ∷ map arrived cs₂) =
        w'
        ∙ ap (λ x. x ++ (nop_done completed ∷ after)) b
        ∙ ap (λ x. map arrived cs₁ ++ (nop_done completed ∷ x)) a in
      let (rest, off, world, seen) =
        run_resumes cs₁ (entry completed (pos 0)) (map arrived cs₂) s
          (Unfinished-front cs₁ cs₂ (rw (← p) u)) refl in
      (
        ring',
        cs₁,
        cs₂,
        rw (got, finish) refl,
        p,
        rw (arrives) rest,
        rw (arrives) off,
        rw (arrives) world,
      )
