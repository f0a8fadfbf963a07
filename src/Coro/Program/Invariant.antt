-- ===== src/Coro/Program/Invariant.antt =====
-- What holds between two ticks: each coroutine is in one place.
pub mod Moves
pub mod Changes
pub mod Made
pub mod Queues
pub mod Turns
pub mod Launching
pub mod Ending
pub mod Steps
use kk_proxy.Common.{
  ℕ, ◌≤◌, ◌<◌, ◌≡◌, ◌≢◌, ◌⊎◌, Bool, true, false, Option, some, List, [], ◌∷◌, ◌==◌, if◌then◌else◌,
  ℤ, length,
}
use kk_proxy.Uring.Loop.{UserData, io_data}
use kk_proxy.Coro.Flag.{is_daemon}
use kk_proxy.Coro.Task.{Frame, resume, noop, Got}
use kk_proxy.Coro.Program.{
  Body, Rest, at_start, with_io, with_task, Control, going, to, undefined, overrun,
}
use kk_proxy.Coro.Program.Scoped.{IsScoped}

-- Where a coroutine is. `fresh`: there is none yet. `stacked`: in a call of `launch`, with so many others
-- outside of it. `ready`: it gets control next. `parked_io`: its entry was submitted. `parked_task`: it waits for the end of that task, or did so until another took its place.
pub data Mode : Type 0 where
  fresh running ready over parked_io : Mode
  stacked parked_task : ℕ → Mode

abbrev pub is_live : Mode → Bool
is_live fresh = false
is_live over = false
is_live _ = true

abbrev pub set_mode : ℕ → Mode → (ℕ → Mode) → ℕ → Mode
set_mode h x mode a = if a == h then x else mode a

-- No entry is that of the coroutine `h`.
abbrev pub IsAbsent : ℕ → List UserData → Type 0
IsAbsent h [] = Unit
IsAbsent h (d ∷ ds) = (d ≢ io_data h) × IsAbsent h ds

-- The coroutine of each entry waits for it, and for no other.
abbrev pub Queue : (ℕ → Mode) → List UserData → Type 0
Queue mode [] = Unit
Queue mode (d ∷ ds) =
    ((h : ℕ) → d ≡ io_data h → (mode h ≡ parked_io) × IsAbsent h ds) × Queue mode ds

module _ {V E : Type 0} where
  abbrev pub ControlIs : (ℕ → Mode) → (ℕ → Bool) → Control V E → Type 0
  ControlIs mode J (going h b) = (mode h ≡ running) × IsScoped J b
  ControlIs mode J (to (resume h)) = mode h ≡ ready
  ControlIs mode J (to noop) = Unit
  ControlIs mode J undefined = ⊥
  ControlIs mode J overrun = Unit

  -- What a coroutine in this place goes on with.
  abbrev pub RestIs : (ℕ → Bool) → (next : ℕ) → Mode → Option (Rest V E) → Type 0
  RestIs J next ready (some (at_start b)) = IsScoped J b
  RestIs J next ready (some (with_task d k)) =
      (1 ≤ d) × (d < next) × ((g : Got V) → IsScoped J (k g))
  RestIs J next ready _ = ⊥
  RestIs J next parked_io (some (with_io k)) = (r : ℤ) → IsScoped J (k r)
  RestIs J next parked_io _ = ⊥
  RestIs J next (parked_task d) (some (with_task e k)) =
      (e ≡ d) × (1 ≤ d) × ((g : Got V) → IsScoped J (k g))
  RestIs J next (parked_task d) _ = ⊥
  RestIs J next _ r = Unit

  abbrev pub Stacked : (ℕ → Mode) → (ℕ → Bool) → List (ℕ × Body V E) → Type 0
  Stacked mode J [] = Unit
  Stacked mode J ((h, b) ∷ ls) = (mode h ≡ stacked (length ls)) × IsScoped J b × Stacked mode J ls

  -- `J` are the tasks that were launched.
  pub record Inv (mode : ℕ → Mode) (J : ℕ → Bool) (control : Control V E)
      (frames : ℕ → Option (Frame V)) (rests : ℕ → Option (Rest V E)) (next : ℕ)
      (submitted : List UserData) (launchers : List (ℕ × Body V E)) : Type 0 where
    pub control_is : ControlIs mode J control
    -- a coroutine that is somewhere has a frame, and has not ended
    pub live :
        (h : ℕ) → is_live (mode h) ≡ true → (f : Frame V) × (frames h ≡ some f) × (f.done ≡ false)
    -- the frames of all but the first are never destroyed
    pub kept :
        (a : ℕ)
        → 1 ≤ a
        → a < next
        → (f : Frame V) × (frames a ≡ some f)
          × ((is_daemon f.flags ≡ true) ⊎ ((c : ℕ) × (f.caller ≡ some c)))
    pub unused : (a : ℕ) → next ≤ a → mode a ≡ fresh
    -- who will be resumed at the end of a task waits for it
    pub callers :
        (d : ℕ) (f : Frame V) (h : ℕ)
        → frames d ≡ some f
        → f.done ≡ false
        → f.caller ≡ some h
        → mode h ≡ parked_task d
    pub rests_are : (h : ℕ) → RestIs J next (mode h) (rests h)
    pub jobs :
        (d : ℕ)
        → J d ≡ true
        → (1 ≤ d) × (d < next) × (f : Frame V) × (frames d ≡ some f) × (is_daemon f.flags ≡ true)
    pub queue : Queue mode submitted
    pub stack : Stacked mode J launchers
    pub started : 1 ≤ next
