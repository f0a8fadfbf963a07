-- ===== src/Coro/Task/Void.antt =====
-- The promise of `task<void>` in kkp/kkp-core/include/kkp/coro/task.hpp, which has a flag in place of the
-- value, and how it compares with that of a task with a value.
use kk_proxy.Common.{
  inl, inr, Option-cases, Bool-cases, ℕ, Bool, true, ◌≡◌, refl, Option, none, some, if◌then◌else◌,
}
use kk_proxy.Coro.Task.{Frame, Outcome, returned, threw, Got, got, rethrown, ended, value_of}
use kk_proxy.Coro.Task

pub record VoidPromise : Type 0 where
  pub caller : Option ℕ
  pub ex : Option ℕ
  pub context : Option ℕ
  pub flags : ℕ
  pub value_flag : Bool
  pub done : Bool

-- `return_void` or `unhandled_exception`, and then the final suspend point is reached.
abbrev pub return_void : VoidPromise → VoidPromise
return_void f = record f { value_flag = true }

abbrev pub ended_void : Outcome (Unit {0}) → VoidPromise → VoidPromise
ended_void (returned v) f = record (return_void f) { done = true }
ended_void (threw e) f = record f { ex = some e; done = true }

-- `check_error` alone: a task that has not ended gives no error either.
abbrev pub get_value : VoidPromise → Got (Unit {0})
get_value f = elim f.ex [ some e ↦ rethrown e | none ↦ got tt ]

abbrev pub has_value : VoidPromise → Bool
has_value f = f.value_flag

-- The same promise with a value of the type with one element.
abbrev pub as_frame : VoidPromise → Frame (Unit {0})
as_frame f = record {
  caller = f.caller;
  ex = f.ex;
  context = f.context;
  flags = f.flags;
  value = if f.value_flag then some tt else none;
  done = f.done;
}

-- However the body ends, a task without a value is left, and asked, as one with the only value of its type.
pub ended_void_lem :
    (o : Outcome (Unit {0})) (f : VoidPromise)
    → (as_frame (ended_void o f) ≡ ended o (as_frame f))
      × (get_value (ended_void o f) ≡ value_of (ended o (as_frame f)))
      × (has_value (ended_void o f) ≡ Task.has_value (ended o (as_frame f)))
ended_void_lem (returned tt) f =
    (refl, elim (Option-cases f.ex) [ inl e ↦ rw e refl | inr (x, e) ↦ rw e refl ], refl)
ended_void_lem (threw e) f =
    (refl, refl, elim (Bool-cases f.value_flag) [ inl e ↦ rw e refl | inr e ↦ rw e refl ])
