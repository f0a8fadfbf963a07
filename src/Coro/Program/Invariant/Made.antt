-- ===== src/Coro/Program/Invariant/Made.antt =====
-- How the invariant is kept when a coroutine is made, a task is launched, or a frame is destroyed.
use kk_proxy.Common.{
  ℕ, suc, ◌≤◌, ◌<◌, ◌≡◌, ◌≢◌, sym, subst, ap, ◌∙◌, Bool, true, false, Option, none, some, List, [],
  ◌∷◌, arith, some-injective,
}
use kk_proxy.Uring.Loop.{UserData}
use kk_proxy.Coro.Task.{Frame, resume}
use kk_proxy.Coro.Program.{Body, Rest, at_start, with_io, with_task, Control, to}
use kk_proxy.Coro.Program.Scoped.{IsScoped, Grows, Grows-IsScoped}
use kk_proxy.Coro.Program.Invariant.{
  Mode, fresh, running, ready, over, stacked, parked_io, parked_task, is_live, set_mode, RestIs,
  Stacked, Inv,
}
use kk_proxy.Coro.Program.Invariant.Moves.{
  set_mode-same, set_mode-other, set_mode-by, not_parked, Queue-set_mode, Stacked-set_mode,
}
use kk_proxy.Coro.Program.Invariant.Changes.{by_place, IsKept}

module _ {V E : Type 0} (J J' : ℕ → Bool) (grows : Grows J J') where
  pub RestIs-Grows :
      (next next' : ℕ) (x : Mode) (r : Option (Rest V E))
      → next ≤ next'
      → RestIs J next x r
      → RestIs J' next' x r
  RestIs-Grows next next' ready (some (at_start b)) l h = Grows-IsScoped b J J' grows h
  RestIs-Grows next next' ready (some (with_task d k)) l (p, q, s) =
      (p, omega arith, λ g. Grows-IsScoped (k g) J J' grows (s g))
  RestIs-Grows next next' parked_io (some (with_io k)) l h =
      λ r. Grows-IsScoped (k r) J J' grows (h r)
  RestIs-Grows next next' (parked_task d) (some (with_task e k)) l (p, q, s) =
      (p, q, λ g. Grows-IsScoped (k g) J J' grows (s g))
  RestIs-Grows next next' ready none l h = elim h [ ]
  RestIs-Grows next next' ready (some (with_io k)) l h = elim h [ ]
  RestIs-Grows next next' parked_io none l h = elim h [ ]
  RestIs-Grows next next' parked_io (some (at_start b)) l h = elim h [ ]
  RestIs-Grows next next' parked_io (some (with_task d k)) l h = elim h [ ]
  RestIs-Grows next next' (parked_task d) none l h = elim h [ ]
  RestIs-Grows next next' (parked_task d) (some (at_start b)) l h = elim h [ ]
  RestIs-Grows next next' (parked_task d) (some (with_io k)) l h = elim h [ ]
  RestIs-Grows next next' fresh r l h = tt
  RestIs-Grows next next' running r l h = tt
  RestIs-Grows next next' over r l h = tt
  RestIs-Grows next next' (stacked i) r l h = tt

  pub Stacked-Grows :
      (mode : ℕ → Mode) (ls : List (ℕ × Body V E)) → Stacked mode J ls → Stacked mode J' ls
  Stacked-Grows mode [] s = tt
  Stacked-Grows mode ((h, b) ∷ ls) (e, p, s) =
      (e, Grows-IsScoped b J J' grows p, Stacked-Grows mode ls s)

module _ {V E : Type 0} {mode : ℕ → Mode} {J : ℕ → Bool} {next : ℕ} {c : Control V E}
    {frames : ℕ → Option (Frame V)} {rests : ℕ → Option (Rest V E)} {ds : List UserData}
    {ls : List (ℕ × Body V E)} where
  -- A coroutine is made, and gets control.
  pub allocate :
      (f : Frame V) (b : Body V E) (frames' : ℕ → Option (Frame V)) (rests' : ℕ → Option (Rest V E))
      → frames' next ≡ some f
      → ((a : ℕ) → a ≢ next → frames' a ≡ frames a)
      → rests' next ≡ some (at_start b)
      → ((a : ℕ) → a ≢ next → rests' a ≡ rests a)
      → f.done ≡ false
      → IsKept f
      → ((h : ℕ) → f.caller ≡ some h → mode h ≡ parked_task next)
      → IsScoped J b
      → Inv mode J c frames rests next ds ls
      → Inv (set_mode next ready mode) J (to (resume next)) frames' rests' (suc next) ds ls
  allocate f b frames' rests' is others goes others_go going_on keep waits scoped i =
      let blank : mode next ≡ fresh = i.unused next (omega arith) in
      let other : (h : ℕ) (d : ℕ)
          → mode h ≡ parked_task d
          → set_mode next ready mode h ≡ parked_task d =
        λ h d e. set_mode-other next ready mode h (λ q. cc (sym e ∙ ap mode q ∙ blank)) ∙ e in
      let id : Grows J J = λ x j. j in
      record {
        control_is = set_mode-same next ready mode;
        live = λ h l.
            by_place
              (λ a.
                is_live (set_mode next ready mode a) ≡ true
                → (g : Frame V) × (frames' a ≡ some g) × (g.done ≡ false))
              next (λ _. (f, is, going_on))
              (λ a n l.
                let (g, e, y) = i.live a (rw (← set_mode-other next ready mode a n) l) in
                (g, others a n ∙ e, y))
              h l;
        kept =
            by_place (λ a. 1 ≤ a → a < suc next → (g : Frame V) × (frames' a ≡ some g) × IsKept g)
              next (λ p q. (f, is, keep))
              (λ a n p q. let (g, e, k) = i.kept a p (ground (arith, n)) in (g, others a n ∙ e, k));
        unused = λ a l.
            set_mode-other next ready mode a (λ e. absurd (omega (arith, e)))
            ∙ i.unused a (omega arith);
        callers =
            by_place
              (λ a.
                (g : Frame V) (h : ℕ)
                → frames' a ≡ some g
                → g.done ≡ false
                → g.caller ≡ some h
                → set_mode next ready mode h ≡ parked_task a)
              next
              (λ g h e y w.
                let same : f ≡ g = some-injective _ _ (sym is ∙ e) in
                other h next (waits h (ap (λ z. z.caller) same ∙ w)))
              (λ a n g h e y w. other h a (i.callers a g h (sym (others a n) ∙ e) y w));
        rests_are =
            set_mode-by next ready mode (λ a m. RestIs J (suc next) m (rests' a))
              (subst (RestIs J (suc next) ready) (sym goes) scoped)
              (λ a n. subst (RestIs J (suc next) (mode a)) (sym (others_go a n)) (
                RestIs-Grows J J id next (suc next) (mode a) (rests a) (omega arith)
                  (i.rests_are a)));
        jobs = λ d j.
            let (p, q, g, e, k) = i.jobs d j in
            (p, omega (arith, q), g, others d (λ z. absurd (omega (arith, q, z))) ∙ e, k);
        queue =
            Queue-set_mode next ready mode ds
              (not_parked next mode ds (λ e. cc (sym blank ∙ e)) i.queue) i.queue;
        stack = Stacked-set_mode next ready mode J ls (λ n l e. cc (sym blank ∙ e)) i.stack;
        started = omega arith;
      }
