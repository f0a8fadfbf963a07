-- ===== src/Uring/Loop/Laws.antt =====
-- What a run of the loop is said in: entries, resumptions, and single rounds of `run`.
use kk_proxy.Common.{ℕ, ◌≡◌, refl, Bool, true, false, List, [], ◌∷◌, ◌++◌, ℤ}
use kk_proxy.Uring.Loop.{UserData, completed, io_data, Cqe, Wait, Loop, on_wait, run_loop}

abbrev pub entry : UserData → ℤ → Cqe
entry d r = record { user_data = d; res = r }

abbrev pub resumption : UserData → ℤ → List (ℕ × ℤ)
resumption (io_data p) r = (p, r) ∷ []
resumption _ r = []

abbrev pub is_completed : UserData → Bool
is_completed completed = true
is_completed _ = false

-- None of the entries is the mark of `io_context::finish`.
abbrev pub Unfinished : List Cqe → Type 0
Unfinished [] = Unit
Unfinished (c ∷ cs) = (is_completed c.user_data ≡ false) × Unfinished cs

-- What a wait that is no failure and does not stop the loop resumes: the awaiter and its result.
abbrev pub resumptions : List Cqe → List (ℕ × ℤ)
resumptions [] = []
resumptions (c ∷ cs) = resumption c.user_data c.res ++ resumptions cs

-- The world as a log of resumptions.
abbrev pub log : ℕ → ℤ → List (ℕ × ℤ) → List (ℕ × ℤ)
log p r done = done ++ ((p, r) ∷ [])

-- A loop that does not run reads nothing.
pub run_loop-stopped :
    (ws : List Wait) (s : Loop (List (ℕ × ℤ))) → s.running ≡ false → run_loop log ws s ≡ (ws, s)
unfolding run_loop
run_loop-stopped [] s off = refl
run_loop-stopped (w ∷ ws) s off = rw off refl

pub run_loop-step :
    (w : Wait) (ws : List Wait) (s : Loop (List (ℕ × ℤ)))
    → s.running ≡ true
    → run_loop log (w ∷ ws) s ≡ run_loop log ws (on_wait log w s)
unfolding run_loop
run_loop-step w ws s on = rw on refl
