-- ===== src/Coro/Program/Scoped.antt =====
-- Programs that await the tasks they launched, and no other address.
use kk_proxy.Common.{ℕ, ◌≡◌, Bool, true, ◌==◌, ◌||◌, ℤ, arith}
use kk_proxy.Coro.Task.{Got}
use kk_proxy.Coro.Program.{Body, ends, acts, awaits_io, awaits_task, launches, awaits_job}

-- With one more job.
abbrev pub add : ℕ → (ℕ → Bool) → ℕ → Bool
add a J x = (x == a) || J x

-- The jobs of one set are jobs of the other.
abbrev pub Grows : (J J' : ℕ → Bool) → Type 0
Grows J J' = (x : ℕ) → J x ≡ true → J' x ≡ true

pub add-Grows : (a : ℕ) (J : ℕ → Bool) → Grows J (add a J)
add-Grows a J x h = ground (arith, h)

pub add-same : (a : ℕ) (J : ℕ → Bool) → add a J a ≡ true
add-same a J = ground arith

pub Grows-add : (a : ℕ) (J J' : ℕ → Bool) → Grows J J' → Grows (add a J) (add a J')
Grows-add a J J' g x h = ground (arith, g x)

module _ {V E : Type 0} where
  -- A body in which each task that is awaited where it stays is one of these jobs, or the result of an
  -- earlier `launch`, whatever its address is.
  abbrev pub IsScoped : (ℕ → Bool) → Body V E → Type 0
  IsScoped J (ends o) = Unit {0}
  IsScoped J (acts e b) = IsScoped J b
  IsScoped J (awaits_io k) = (r : ℤ) → IsScoped J (k r)
  IsScoped J (awaits_task b k) = IsScoped J b × ((g : Got V) → IsScoped J (k g))
  IsScoped J (launches context b k) = IsScoped J b × ((a : ℕ) → IsScoped (add a J) (k a))
  IsScoped J (awaits_job job k) = (J job ≡ true) × ((g : Got V) → IsScoped J (k g))

  pub Grows-IsScoped : (b : Body V E) (J J' : ℕ → Bool) → Grows J J' → IsScoped J b → IsScoped J' b
  Grows-IsScoped (ends o) J J' g h = tt
  Grows-IsScoped (acts e b) J J' g h = Grows-IsScoped b J J' g h
  Grows-IsScoped (awaits_io k) J J' g h = λ r. Grows-IsScoped (k r) J J' g (h r)
  Grows-IsScoped (awaits_task b k) J J' g (p, q) =
      (Grows-IsScoped b J J' g p, λ v. Grows-IsScoped (k v) J J' g (q v))
  Grows-IsScoped (launches context b k) J J' g (p, q) = (
    Grows-IsScoped b J J' g p,
    λ a. Grows-IsScoped (k a) (add a J) (add a J') (Grows-add a J J' g) (q a),
  )
  Grows-IsScoped (awaits_job job k) J J' g (p, q) =
      (g job p, λ v. Grows-IsScoped (k v) J J' g (q v))
