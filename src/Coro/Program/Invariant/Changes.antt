-- ===== src/Coro/Program/Invariant/Changes.antt =====
-- How the invariant is kept when a frame changes, a frame is made, or the queues change.
use kk_proxy.Common.{
  ℕ, ◌≤◌, ◌<◌, ◌≡◌, ◌≢◌, ◌⊎◌, inl, inr, sym, subst, ap, ◌∙◌, Bool, true, false, Bool-cases, Option,
  some, List, ◌==◌, arith, some-injective,
}
use kk_proxy.Uring.Loop.{UserData}
use kk_proxy.Coro.Flag.{is_daemon}
use kk_proxy.Coro.Task.{Frame}
use kk_proxy.Coro.Program.{Body, Rest, Control}
use kk_proxy.Coro.Program.Invariant.{Mode, parked_task, is_live, Inv}

-- At one place and at the others.
pub by_place : (P : ℕ → Type 0) (d : ℕ) → P d → ((a : ℕ) → a ≢ d → P a) → (a : ℕ) → P a
by_place P d here there a = elim (Bool-cases (a == d)) [
  | inl e ↦ let same : d ≡ a = ground arith in subst P same here
  | inr e ↦ there a (ground arith)
]

-- What keeps a frame from being destroyed at its end.
abbrev pub IsKept : {V : Type 0} → Frame V → Type 0
IsKept f = (is_daemon f.flags ≡ true) ⊎ ((c : ℕ) × (f.caller ≡ some c))

module _ {V E : Type 0} {mode : ℕ → Mode} {J : ℕ → Bool} {next : ℕ} {c : Control V E}
    {frames : ℕ → Option (Frame V)} {rests : ℕ → Option (Rest V E)} {ds : List UserData}
    {ls : List (ℕ × Body V E)} where
  -- A frame changes.
  pub reframe :
      (d : ℕ) (f f' : Frame V) (frames' : ℕ → Option (Frame V))
      → frames d ≡ some f
      → frames' d ≡ some f'
      → ((a : ℕ) → a ≢ d → frames' a ≡ frames a)
      → (is_live (mode d) ≡ true → f'.done ≡ false)
      → (IsKept f → IsKept f')
      → (is_daemon f.flags ≡ true → is_daemon f'.flags ≡ true)
      → ((h : ℕ) → f'.done ≡ false → f'.caller ≡ some h → mode h ≡ parked_task d)
      → Inv mode J c frames rests next ds ls
      → Inv mode J c frames' rests next ds ls
  reframe d f f' frames' was is others going_on keeps daemon waits i = record {
    control_is = i.control_is;
    live =
        by_place
          (λ a. is_live (mode a) ≡ true → (g : Frame V) × (frames' a ≡ some g) × (g.done ≡ false)) d
          (λ l. (f', is, going_on l))
          (λ a n l. let (g, e, y) = i.live a l in (g, others a n ∙ e, y));
    kept =
        by_place (λ a. 1 ≤ a → a < next → (g : Frame V) × (frames' a ≡ some g) × IsKept g) d
          (λ p q.
            let (g, e, k) = i.kept d p q in
            let same : g ≡ f = some-injective _ _ (sym e ∙ was) in
            (f', is, keeps (subst IsKept same k)))
          (λ a n p q. let (g, e, k) = i.kept a p q in (g, others a n ∙ e, k));
    unused = i.unused;
    callers =
        by_place
          (λ a.
            (g : Frame V) (h : ℕ)
            → frames' a ≡ some g
            → g.done ≡ false
            → g.caller ≡ some h
            → mode h ≡ parked_task a)
          d
          (λ g h e y w.
            let same : f' ≡ g = some-injective _ _ (sym is ∙ e) in
            waits h (ap (λ z. z.done) same ∙ y) (ap (λ z. z.caller) same ∙ w))
          (λ a n g h e y w. i.callers a g h (sym (others a n) ∙ e) y w);
    rests_are = i.rests_are;
    jobs =
        by_place
          (λ a.
            J a ≡ true
            → (1 ≤ a)
              × (a < next)
              × (g : Frame V) × (frames' a ≡ some g)
              × (is_daemon g.flags ≡ true))
          d
          (λ j.
            let (p, q, g, e, k) = i.jobs d j in
            let same : g ≡ f = some-injective _ _ (sym e ∙ was) in
            (p, q, f', is, daemon (subst (λ z. is_daemon z.flags ≡ true) same k)))
          (λ a n j. let (p, q, g, e, k) = i.jobs a j in (p, q, g, others a n ∙ e, k));
    queue = i.queue;
    stack = i.stack;
    started = i.started;
  }
