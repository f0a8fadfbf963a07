-- ===== src/Coro/Program/Invariant/Queues.antt =====
-- How the invariant is kept when a task becomes a job, a call of `launch` begins or returns, an entry is
-- submitted or completed, or a frame is destroyed.
use kk_proxy.Common.{
  ℕ, zero, suc, ◌≤◌, ◌<◌, ◌≡◌, ◌≢◌, inl, inr, sym, subst, ◌∙◌, Bool, true, false, Bool-cases,
  Option, none, some, List, [], ◌∷◌, ◌++◌, ◌==◌, length, arith, some-injective, replicate,
}
use kk_proxy.Uring.Loop.{UserData, completed, io_data}
use kk_proxy.Coro.Flag.{is_daemon}
use kk_proxy.Coro.Task.{Frame, Next, resume, noop}
use kk_proxy.Coro.Program.{Body, Rest, Control, to, take_out}
use kk_proxy.Coro.Program.Scoped.{IsScoped, add, add-Grows}
use kk_proxy.Coro.Program.Invariant.{
  Stacked, Mode, stacked, parked_io, parked_task, is_live, Queue, IsAbsent, ControlIs, Inv,
}
use kk_proxy.Coro.Program.Invariant.Changes.{by_place, IsKept}
use kk_proxy.Coro.Program.Invariant.Made.{RestIs-Grows, Stacked-Grows}

module _ (h : ℕ) where
  IsAbsent-append : (xs ys : List UserData) → IsAbsent h xs → IsAbsent h ys → IsAbsent h (xs ++ ys)
  IsAbsent-append [] ys p q = q
  IsAbsent-append (x ∷ xs) ys (n, p) q = (n, IsAbsent-append xs ys p q)

  IsAbsent-completed : (n : ℕ) → IsAbsent h (replicate n completed)
  IsAbsent-completed zero = tt
  IsAbsent-completed (suc n) = ((λ e. cc), IsAbsent-completed n)

  IsAbsent-take_out :
      (d : UserData) (ds : List UserData) (place : ℕ)
      → IsAbsent h (d ∷ ds)
      → let (x, rest) = take_out d ds place in IsAbsent h (x ∷ rest)
  IsAbsent-take_out d [] place p = p
  IsAbsent-take_out d (x ∷ ds) zero p = p
  IsAbsent-take_out d (x ∷ ds) (suc place) (n, p) =
      let (m, q) = IsAbsent-take_out x ds place p in (m, (n, q))

module _ (mode : ℕ → Mode) where
  Queue-submit :
      (h : ℕ) (ds : List UserData)
      → mode h ≡ parked_io
      → IsAbsent h ds
      → Queue mode ds
      → Queue mode (ds ++ (io_data h ∷ []))
  Queue-submit h [] e p q = ((λ a same. (subst (λ z. mode z ≡ parked_io) (cc same) e, tt)), tt)
  Queue-submit h (d ∷ ds) e (n, p) (w, q) = (
    λ a same. (
      (w a same).0,
      IsAbsent-append a ds (io_data h ∷ []) (w a same).1 (λ z. n (same ∙ sym z), tt),
    ),
    Queue-submit h ds e p q,
  )

  Queue-completed : (n : ℕ) → Queue mode (replicate n completed)
  Queue-completed zero = tt
  Queue-completed (suc n) = ((λ h e. cc), Queue-completed n)

  Queue-mark :
      (n : ℕ) (ds : List UserData) → Queue mode ds → Queue mode (ds ++ replicate n completed)
  Queue-mark n [] q = Queue-completed n
  Queue-mark n (d ∷ ds) (w, q) = (
    λ a same. (
      (w a same).0,
      IsAbsent-append a ds (replicate n completed) (w a same).1 (IsAbsent-completed a n),
    ),
    Queue-mark n ds q,
  )

  -- Any entry may be completed next.
  pub Queue-take_out :
      (d : UserData) (ds : List UserData) (place : ℕ)
      → Queue mode (d ∷ ds)
      → let (x, rest) = take_out d ds place in Queue mode (x ∷ rest)
  Queue-take_out d [] place q = q
  Queue-take_out d (x ∷ ds) zero q = q
  Queue-take_out d (x ∷ ds) (suc place) (w, q) =
      let (v, r) = Queue-take_out x ds place q in
      (
        λ a e. ((v a e).0, ((λ z. (IsAbsent-take_out a x ds place (w a z).1).0 e), (v a e).1)),
        ((λ a e. ((w a e).0, (IsAbsent-take_out a x ds place (w a e).1).1)), r),
      )

module _ {V E : Type 0} {mode : ℕ → Mode} {J : ℕ → Bool} {next : ℕ} {n : Next}
    {frames : ℕ → Option (Frame V)} {rests : ℕ → Option (Rest V E)} {ds : List UserData}
    {ls : List (ℕ × Body V E)} where
  pub add_job :
      (d : ℕ) (f : Frame V)
      → 1 ≤ d
      → d < next
      → frames d ≡ some f
      → is_daemon f.flags ≡ true
      → Inv mode J (to n) frames rests next ds ls
      → Inv mode (add d J) (to n) frames rests next ds ls
  add_job d f p q e y i = record {
    control_is = same n i.control_is;
    live = i.live;
    kept = i.kept;
    unused = i.unused;
    callers = i.callers;
    rests_are = λ h.
        RestIs-Grows J (add d J) (add-Grows d J) next next (mode h) (rests h) (omega arith)
          (i.rests_are h);
    jobs = λ a j. elim (Bool-cases (a == d)) [
      | inl z ↦ let same : a ≡ d = ground arith in rw same (p, q, f, e, y)
      | inr z ↦ i.jobs a (rw z at j)
    ];
    queue = i.queue;
    stack = Stacked-Grows J (add d J) (add-Grows d J) mode ls i.stack;
    started = i.started;
  }
    where
      same :
          (n : Next)
          → ControlIs {V = V} {E = E} mode J (to n)
          → ControlIs {V = V} {E = E} mode (add d J) (to n)
      same noop x = x
      same (resume h) x = x

module _ {V E : Type 0} {mode : ℕ → Mode} {J : ℕ → Bool} {next : ℕ} {c : Control V E}
    {frames : ℕ → Option (Frame V)} {rests : ℕ → Option (Rest V E)} {ds : List UserData}
    {ls : List (ℕ × Body V E)} where
  -- Other entries and other calls of `launch` wait.
  relist :
      (ds' : List UserData) (ls' : List (ℕ × Body V E))
      → Queue mode ds'
      → Stacked mode J ls'
      → Inv mode J c frames rests next ds ls
      → Inv mode J c frames rests next ds' ls'
  relist ds' ls' q s i = record {
    control_is = i.control_is;
    live = i.live;
    kept = i.kept;
    unused = i.unused;
    callers = i.callers;
    rests_are = i.rests_are;
    jobs = i.jobs;
    queue = q;
    stack = s;
    started = i.started;
  }

  pub push :
      (h : ℕ) (b : Body V E)
      → mode h ≡ stacked (length ls)
      → IsScoped J b
      → Inv mode J c frames rests next ds ls
      → Inv mode J c frames rests next ds ((h, b) ∷ ls)
  push h b e s i = relist ds ((h, b) ∷ ls) i.queue (e, s, i.stack) i

  pub requeue :
      (ds' : List UserData)
      → Queue mode ds'
      → Inv mode J c frames rests next ds ls
      → Inv mode J c frames rests next ds' ls
  requeue ds' q i = relist ds' ls q i.stack i

  pub submit :
      (h : ℕ)
      → mode h ≡ parked_io
      → IsAbsent h ds
      → Inv mode J c frames rests next ds ls
      → Inv mode J c frames rests next (ds ++ (io_data h ∷ [])) ls
  submit h e p i = requeue (ds ++ (io_data h ∷ [])) (Queue-submit mode h ds e p i.queue) i

  pub mark :
      (n : ℕ)
      → Inv mode J c frames rests next ds ls
      → Inv mode J c frames rests next (ds ++ replicate n completed) ls
  mark n i = requeue (ds ++ replicate n completed) (Queue-mark mode n ds i.queue) i

  -- The frame of a coroutine that has ended, and that nothing keeps.
  pub remove :
      (d : ℕ) (f : Frame V) (frames' : ℕ → Option (Frame V))
      → frames d ≡ some f
      → ¬ IsKept f
      → is_live (mode d) ≡ false
      → frames' d ≡ none
      → ((a : ℕ) → a ≢ d → frames' a ≡ frames a)
      → Inv mode J c frames rests next ds ls
      → Inv mode J c frames' rests next ds ls
  remove d f frames' was loose ended is others i = record {
    control_is = i.control_is;
    live =
        by_place
          (λ a. is_live (mode a) ≡ true → (g : Frame V) × (frames' a ≡ some g) × (g.done ≡ false)) d
          (λ l. cc (sym ended ∙ l)) (λ a n l. let (g, e, y) = i.live a l in (g, others a n ∙ e, y));
    kept =
        by_place (λ a. 1 ≤ a → a < next → (g : Frame V) × (frames' a ≡ some g) × IsKept g) d
          (λ p q.
            let (g, e, k) = i.kept d p q in
            let same : g ≡ f = some-injective _ _ (sym e ∙ was) in
            absurd (loose (subst IsKept same k)))
          (λ a n p q. let (g, e, k) = i.kept a p q in (g, others a n ∙ e, k));
    unused = i.unused;
    callers =
        by_place
          (λ a.
            (g : Frame V) (h : ℕ)
            → frames' a ≡ some g
            → g.done ≡ false
            → g.caller ≡ some h
            → mode h ≡ parked_task a)
          d (λ g h e y w. cc (sym is ∙ e))
          (λ a n g h e y w. i.callers a g h (sym (others a n) ∙ e) y w);
    rests_are = i.rests_are;
    jobs =
        by_place
          (λ a.
            J a ≡ true
            → (1 ≤ a)
              × (a < next)
              × (g : Frame V) × (frames' a ≡ some g)
              × (is_daemon g.flags ≡ true))
          d
          (λ j.
            let (p, q, g, e, k) = i.jobs d j in
            let same : g ≡ f = some-injective _ _ (sym e ∙ was) in
            absurd (loose (inl (subst (λ z. is_daemon z.flags ≡ true) same k))))
          (λ a n j. let (p, q, g, e, k) = i.jobs a j in (p, q, g, others a n ∙ e, k));
    queue = i.queue;
    stack = i.stack;
    started = i.started;
  }

module _ {V E : Type 0} {mode : ℕ → Mode} {J : ℕ → Bool} {next : ℕ} {c : Control V E}
    {frames : ℕ → Option (Frame V)} {rests : ℕ → Option (Rest V E)} {ds : List UserData}
    {ls : List (ℕ × Body V E)} where
  -- The innermost call of `launch` returns.
  pub pop :
      (h : ℕ) (b : Body V E)
      → Inv mode J c frames rests next ds ((h, b) ∷ ls)
      → Inv mode J c frames rests next ds ls
  pop h b i = relist ds ls i.queue i.stack.2 i
