-- ===== src/Coro/Program/Invariant/Moves.antt =====
-- How the invariant is kept when one coroutine comes to another place.
use kk_proxy.Common.{
  ℕ, ◌<◌, ◌≡◌, ◌≢◌, inl, inr, refl, sym, subst, ap, ◌∙◌, Bool, true, false, Bool-cases, Option,
  some, List, [], ◌∷◌, ◌==◌, length, arith,
}
use kk_proxy.Uring.Loop.{UserData, io_data}
use kk_proxy.Coro.Task.{Frame, noop}
use kk_proxy.Coro.Program.{Body, Rest, Control, to}
use kk_proxy.Coro.Program.Invariant.{
  Mode, running, stacked, parked_io, parked_task, is_live, set_mode, Queue, IsAbsent, ControlIs,
  RestIs, Stacked, Inv,
}

module _ (h : ℕ) (x : Mode) (mode : ℕ → Mode) where
  pub set_mode-same : set_mode h x mode h ≡ x
  set_mode-same = let e : (h == h) ≡ true = ground arith in rw e refl

  pub set_mode-other : (a : ℕ) → a ≢ h → set_mode h x mode a ≡ mode a
  set_mode-other a n = let e : (a == h) ≡ false = ground arith in rw e refl

  -- A property of every mode, by whether it is that of `h`.
  pub set_mode-by :
      (P : ℕ → Mode → Type 0)
      → P h x
      → ((a : ℕ) → a ≢ h → P a (mode a))
      → (a : ℕ) → P a (set_mode h x mode a)
  set_mode-by P new old a = elim (Bool-cases (a == h)) [
    | inl e ↦
        let same : h ≡ a = ground arith in
        subst (λ a. P a (set_mode h x mode a)) same (subst (P h) (sym set_mode-same) new)
    | inr e ↦ subst (P a) (sym (set_mode-other a (ground arith))) (old a (ground arith))
  ]

  pub Queue-set_mode :
      (ds : List UserData) → IsAbsent h ds → Queue mode ds → Queue (set_mode h x mode) ds
  Queue-set_mode [] apart q = tt
  Queue-set_mode (d ∷ ds) (n, apart) (w, q) = (
    λ a e. (set_mode-other a (λ z. n (e ∙ ap (λ y. io_data y) z)) ∙ (w a e).0, (w a e).1),
    Queue-set_mode ds apart q,
  )

  pub Stacked-set_mode :
      {V E : Type 0} (J : ℕ → Bool) (ls : List (ℕ × Body V E))
      → ((i : ℕ) → i < length ls → mode h ≢ stacked i)
      → Stacked mode J ls
      → Stacked (set_mode h x mode) J ls
  Stacked-set_mode J [] apart s = tt
  Stacked-set_mode J ((a, b) ∷ ls) apart (e, p, s) = (
    elim (Bool-cases (a == h)) [
      | inl y ↦
          let same : a ≡ h = ground arith in
          absurd (apart (length ls) (omega arith) (ap mode (sym same) ∙ e))
      | inr y ↦ rw y e
    ],
    p,
    Stacked-set_mode J ls (λ i l. apart i (omega (arith, l))) s,
  )

-- A coroutine that waits for no entry has none.
pub not_parked :
    (h : ℕ) (mode : ℕ → Mode) (ds : List UserData)
    → mode h ≢ parked_io
    → Queue mode ds
    → IsAbsent h ds
not_parked h mode [] n q = tt
not_parked h mode (d ∷ ds) n (w, q) = (λ e. n (w h e).0, not_parked h mode ds n q)

module _ {V E : Type 0} {mode : ℕ → Mode} {J : ℕ → Bool} {next : ℕ} {c : Control V E}
    {frames : ℕ → Option (Frame V)} {rests : ℕ → Option (Rest V E)} {ds : List UserData}
    {ls : List (ℕ × Body V E)} where
  -- Control goes elsewhere.
  pub aim :
      (c' : Control V E)
      → ControlIs mode J c'
      → Inv mode J c frames rests next ds ls
      → Inv mode J c' frames rests next ds ls
  aim c' is i = record {
    control_is = is;
    live = i.live;
    kept = i.kept;
    unused = i.unused;
    callers = i.callers;
    rests_are = i.rests_are;
    jobs = i.jobs;
    queue = i.queue;
    stack = i.stack;
    started = i.started;
  }

  -- One coroutine comes to another place.
  pub relocate :
      (h : ℕ) (x : Mode) (rests' : ℕ → Option (Rest V E))
      → is_live (mode h) ≡ true
      → ((d : ℕ) (f : Frame V)
          → frames d ≡ some f
          → f.done ≡ false
          → f.caller ≡ some h
          → x ≡ parked_task d)
      → RestIs J next x (rests' h)
      → ((a : ℕ) → a ≢ h → rests' a ≡ rests a)
      → IsAbsent h ds
      → ((i : ℕ) → i < length ls → mode h ≢ stacked i)
      → Inv mode J c frames rests next ds ls
      → Inv (set_mode h x mode) J (to noop) frames rests' next ds ls
  relocate h x rests' alive waits rest kept' io st i = record {
    control_is = tt;
    live =
        set_mode-by h x mode
          (λ a m. is_live m ≡ true → (f : Frame V) × (frames a ≡ some f) × (f.done ≡ false))
          (λ _. i.live h alive) (λ a n. i.live a);
    kept = i.kept;
    unused = λ a l.
        set_mode-other h x mode a (λ e. cc (rw (ap mode (sym e) ∙ i.unused a l) at alive))
        ∙ i.unused a l;
    callers = λ d f a.
        set_mode-by h x mode
          (λ a m. frames d ≡ some f → f.done ≡ false → f.caller ≡ some a → m ≡ parked_task d)
          (waits d f) (λ a n. i.callers d f a) a;
    rests_are =
        set_mode-by h x mode (λ a m. RestIs J next m (rests' a)) rest
          (λ a n. subst (RestIs J next (mode a)) (sym (kept' a n)) (i.rests_are a));
    jobs = i.jobs;
    queue = Queue-set_mode h x mode ds io i.queue;
    stack = Stacked-set_mode h x mode J ls st i.stack;
    started = i.started;
  }

  -- One that has no entry.
  pub remode :
      (h : ℕ) (x : Mode) (rests' : ℕ → Option (Rest V E))
      → is_live (mode h) ≡ true
      → ((d : ℕ) (f : Frame V)
          → frames d ≡ some f
          → f.done ≡ false
          → f.caller ≡ some h
          → x ≡ parked_task d)
      → RestIs J next x (rests' h)
      → ((a : ℕ) → a ≢ h → rests' a ≡ rests a)
      → mode h ≢ parked_io
      → ((i : ℕ) → i < length ls → mode h ≢ stacked i)
      → Inv mode J c frames rests next ds ls
      → Inv (set_mode h x mode) J (to noop) frames rests' next ds ls
  remode h x rests' alive waits rest kept' io st i =
      relocate h x rests' alive waits rest kept' (not_parked h mode ds io i.queue) st i

  -- The running coroutine.
  pub leave :
      (h : ℕ) (x : Mode) (rests' : ℕ → Option (Rest V E))
      → mode h ≡ running
      → RestIs J next x (rests' h)
      → ((a : ℕ) → a ≢ h → rests' a ≡ rests a)
      → Inv mode J c frames rests next ds ls
      → Inv (set_mode h x mode) J (to noop) frames rests' next ds ls
  leave h x rests' runs rest kept' i =
      remode h x rests' (rw runs refl) (λ d f p q r. cc (sym runs ∙ i.callers d f h p q r)) rest
        kept' (λ e. cc (sym runs ∙ e)) (λ n l e. cc (sym runs ∙ e)) i
