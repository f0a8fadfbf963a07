-- ===== src/Uring/Loop/Waits.antt =====
-- The loop over waits of any kind: entries, failures with an entry and without one, and timeouts.
use kk_proxy.Common.{
  eq_ℤ→eq, ◌≢◌, map, length, ℕ, ◌+◌, ◌≡◌, refl, sym, ap, ◌∙◌, true, false, none, some, List, [],
  ◌∷◌, ◌++◌, append_assoc, append-nil, arith, ℤ, eq_ℤ, Bool-cases, inl, inr, if◌then◌else◌,
}
use kk_proxy.Uring.Loop.{
  Cqe, UserData, null, completed, io_data, Wait, arrived, arrived_null, failed, Loop, on_wait,
  run_loop, run, etime,
}
use kk_proxy.Uring.Loop.Laws.{
  entry, is_completed, resumption, resumptions, Unfinished, log, run_loop-stopped, run_loop-step,
}

-- A wait that is defined and is not one with the mark of `finish`.
abbrev pub IsRegular : Wait → Type 0
IsRegular (arrived c) = is_completed c.user_data ≡ false
IsRegular arrived_null = ⊥
IsRegular (failed res none) = Unit
IsRegular (failed res (some c)) = is_completed c.user_data ≡ false

abbrev pub AreRegular : List Wait → Type 0
AreRegular [] = Unit
AreRegular (w ∷ ws) = IsRegular w × AreRegular ws

-- A wait with the mark: in a success, or in a timeout.
abbrev pub IsMark : Wait → Type 0
IsMark (arrived c) = is_completed c.user_data ≡ true
IsMark (failed res (some c)) = (eq_ℤ res etime ≡ true) × (is_completed c.user_data ≡ true)
IsMark _ = ⊥

-- Which awaiter a wait resumes, and with what: its entry's result, but after a failure that is not a
-- timeout the result of the wait.
abbrev pub wakes : Wait → List (ℕ × ℤ)
wakes (arrived c) = resumption c.user_data c.res
wakes arrived_null = []
wakes (failed res none) = []
wakes (failed res (some c)) = resumption c.user_data (if eq_ℤ res etime then c.res else res)

abbrev pub all_wakes : List Wait → List (ℕ × ℤ)
all_wakes [] = []
all_wakes (w ∷ ws) = wakes w ++ all_wakes ws

-- Only a wait that succeeded is followed by `io_uring_cqe_seen`.
abbrev pub marked : Wait → ℕ
marked (arrived c) = 1
marked _ = 0

abbrev pub all_marked : List Wait → ℕ
all_marked [] = 0
all_marked (w ∷ ws) = marked w + all_marked ws

abbrev pub LogLoop : Type 0
LogLoop = Loop (List (ℕ × ℤ))

on_wait-IsRegular :
    (w : Wait) (s : LogLoop)
    → IsRegular w
    → let t = on_wait log w s in
      (t.running ≡ s.running) × (t.world ≡ s.world ++ wakes w) × (t.seen ≡ s.seen + marked w)
unfolding on_wait
on_wait-IsRegular (arrived c) s h = by_data c.user_data c.res h
  where
    by_data :
        (d : UserData) (r : ℤ)
        → is_completed d ≡ false
        → let t = on_wait log (arrived (entry d r)) s in
          (t.running ≡ s.running) × (t.world ≡ s.world ++ resumption d r) × (t.seen ≡ s.seen + 1)
    by_data null r h = (refl, sym (append-nil s.world), omega arith)
    by_data (io_data p) r h = (refl, refl, omega arith)
    by_data completed r h = cc
on_wait-IsRegular (failed res none) s h = (refl, sym (append-nil s.world), omega arith)
on_wait-IsRegular (failed res (some c)) s h = by_data c.user_data c.res h
  where
    by_data :
        (d : UserData) (r : ℤ)
        → is_completed d ≡ false
        → let w = failed res (some (entry d r)) in
          let t = on_wait log w s in
          (t.running ≡ s.running) × (t.world ≡ s.world ++ wakes w) × (t.seen ≡ s.seen + 0)
    by_data null r h = elim (Bool-cases (eq_ℤ res etime)) [
      | inl e ↦ rw e (refl, sym (append-nil s.world), omega arith)
      | inr e ↦ rw e (refl, sym (append-nil s.world), omega arith)
    ]
    by_data (io_data p) r h = elim (Bool-cases (eq_ℤ res etime)) [
      | inl e ↦ rw e (refl, refl, omega arith)
      | inr e ↦ rw e (refl, refl, omega arith)
    ]
    by_data completed r h = cc
on_wait-IsRegular arrived_null s h = elim h [ ]

on_wait-IsMark :
    (w : Wait) (s : LogLoop)
    → IsMark w
    → let t = on_wait log w s in
      (t.running ≡ false) × (t.world ≡ s.world) × (t.seen ≡ s.seen + marked w)
unfolding on_wait
on_wait-IsMark (arrived c) s h = by_data c.user_data c.res h
  where
    by_data :
        (d : UserData) (r : ℤ)
        → is_completed d ≡ true
        → let t = on_wait log (arrived (entry d r)) s in
          (t.running ≡ false) × (t.world ≡ s.world) × (t.seen ≡ s.seen + 1)
    by_data completed r h = (refl, refl, omega arith)
    by_data null r h = cc
    by_data (io_data p) r h = cc
on_wait-IsMark arrived_null s h = elim h [ ]
on_wait-IsMark (failed res none) s h = elim h [ ]
on_wait-IsMark (failed res (some c)) s (e, h) = by_data c.user_data c.res h
  where
    by_data :
        (d : UserData) (r : ℤ)
        → is_completed d ≡ true
        → let t = on_wait log (failed res (some (entry d r))) s in
          (t.running ≡ false) × (t.world ≡ s.world) × (t.seen ≡ s.seen + 0)
    by_data completed r h = rw e (refl, refl, omega arith)
    by_data null r h = cc
    by_data (io_data p) r h = cc

run_loop_waits :
    (ws : List Wait) (w : Wait) (rest : List Wait) (s : LogLoop)
    → AreRegular ws
    → IsMark w
    → s.running ≡ true
    → let t = run_loop log (ws ++ (w ∷ rest)) s in
      (t.0 ≡ rest)
      × (t.1.running ≡ false)
      × (t.1.world ≡ s.world ++ all_wakes ws)
      × (t.1.seen ≡ s.seen + all_marked ws + marked w)
run_loop_waits [] w rest s u m on =
    let (off, world, seen) = on_wait-IsMark w s m in
    let t = on_wait log w s in
    let e = run_loop-step w rest s on ∙ run_loop-stopped rest t off in
    rw (e) (refl, off, world ∙ sym (append-nil s.world), ground (arith))
run_loop_waits (d ∷ ws) w rest s (n, u) m on =
    let (same, world, seen) = on_wait-IsRegular d s n in
    let (r, off, x, k) = run_loop_waits ws w rest (on_wait log d s) u m (same ∙ on) in
    rw (run_loop-step d (ws ++ (w ∷ rest)) s on) (
      r,
      off,
      (x ∙ ap (λ x. x ++ all_wakes ws) world) ∙ append_assoc s.world (wakes d) (all_wakes ws),
      ground (arith),
    )

-- A run over any waits but a null entry, with no mark of `finish` among them, and then a wait with the
-- mark, which succeeded or was a timeout: each awaiter of an entry was resumed once for each wait
-- that gave its entry, in their order, with the entry's result, but after a failure that was no timeout
-- with the wait's; each wait that succeeded was marked as seen, and no other; then the loop has
-- stopped and has waited for nothing more.
pub run_waits :
    (ws : List Wait) (w : Wait) (rest : List Wait) (s : LogLoop)
    → AreRegular ws
    → IsMark w
    → let t = run log (ws ++ (w ∷ rest)) s in
      (t.0 ≡ rest)
      × (t.1.running ≡ false)
      × (t.1.world ≡ s.world ++ all_wakes ws)
      × (t.1.seen ≡ s.seen + all_marked ws + marked w)
unfolding run
run_waits ws w rest s u m = run_loop_waits ws w rest (record s { running = true }) u m refl

arrived-AreRegular : (cs : List Cqe) → Unfinished cs → AreRegular (map arrived cs)
arrived-AreRegular [] u = tt
arrived-AreRegular (c ∷ cs) (n, u) = (n, arrived-AreRegular cs u)

all_wakes-arrived : (cs : List Cqe) → all_wakes (map arrived cs) ≡ resumptions cs
all_wakes-arrived [] = refl
all_wakes-arrived (c ∷ cs) = ap (λ x. resumption c.user_data c.res ++ x) (all_wakes-arrived cs)

all_marked-arrived : (cs : List Cqe) → all_marked (map arrived cs) ≡ length cs
all_marked-arrived [] = refl
all_marked-arrived (c ∷ cs) = omega (arith, all_marked-arrived cs)

-- A run whose waits first give `cs`, none of them the mark of `finish`, and then the mark `c`,
-- resumes the awaiter of each entry of `cs` once, in the order of the entries and with the entry's
-- result, marks each of them and the mark as seen once, then stops and waits for nothing more.
pub run_resumes :
    (cs : List Cqe) (c : Cqe) (rest : List Wait) (s : LogLoop)
    → Unfinished cs
    → is_completed c.user_data ≡ true
    → let t = run log (map arrived cs ++ (arrived c ∷ rest)) s in
      (t.0 ≡ rest)
      × (t.1.running ≡ false)
      × (t.1.world ≡ s.world ++ resumptions cs)
      × (t.1.seen ≡ s.seen + length cs + 1)
run_resumes cs c rest s u m =
    let (r, off, x, k) =
      run_waits (map arrived cs) (arrived c) rest s (arrived-AreRegular cs u) m in
    (
      r,
      off,
      x ∙ ap (λ x. s.world ++ x) (all_wakes-arrived cs),
      omega (arith, k, all_marked-arrived cs),
    )

not_etime : (res : ℤ) → res ≢ etime → eq_ℤ res etime ≡ false
not_etime res h = elim (Bool-cases (eq_ℤ res etime)) [
  | inl e ↦ absurd (h (eq_ℤ→eq res etime e))
  | inr e ↦ e
]

-- A wait that fails, with a result that is not -ETIME, and gives an entry all the same resumes the
-- awaiter of the entry with the wait's result in place of the entry's. It marks nothing as seen and
-- does not stop the loop. The entry is not the mark of `finish`.
on_wait-failed :
    (c : Cqe) (res : ℤ) (s : LogLoop)
    → res ≢ etime
    → is_completed c.user_data ≡ false
    → let t = on_wait log (failed res (some c)) s in
      (t.running ≡ s.running)
      × (t.seen ≡ s.seen)
      × (t.world ≡ s.world ++ resumption c.user_data res)
on_wait-failed c res s h mark =
    let (same, world, seen) = on_wait-IsRegular (failed res (some c)) s mark in
    (same, omega (arith, seen), rw (not_etime res h) at world)
