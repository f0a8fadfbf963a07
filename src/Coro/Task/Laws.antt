-- ===== src/Coro/Task/Laws.antt =====
-- The life of a task: awaited by another, or started by an `io_context`.
use kk_proxy.Common.{
  ℕ, ◌^◌, ◌<◌, ◌≡◌, ◌≢◌, refl, ap, ◌∙◌, Bool, true, false, Option, none, some, [], ◌∷◌, ◌++◌, ◌==◌,
  if◌then◌else◌, arith,
}
use kk_proxy.Coro.Flag.{is_daemon, set_daemon}
use kk_proxy.Coro.Flag.Laws.{set_daemon_lem}
use kk_proxy.Coro.Task.{
  Frame, Memory, resume, noop, Outcome, returned, threw, Got, got, rethrown, store, ended, value_of,
  task_finish, final_frame, final_suspend, await_suspend, await_ready, end_body, get_value, start,
}

abbrev pub result_of : {V : Type 0} → Outcome V → Got V
result_of (returned v) = got v
result_of (threw e) = rethrown e

pub value_of-ended :
    {V : Type 0} (o : Outcome V) (f : Frame V) → f.ex ≡ none → value_of (ended o f) ≡ result_of o
value_of-ended (returned v) f h = rw (h) refl
value_of-ended (threw e) f h = refl

eq_refl : (n : ℕ) → (n == n) ≡ true
eq_refl n = ground arith

ne_false : (a b : ℕ) → a ≢ b → (a == b) ≡ false
ne_false a b h = ground arith

pub ended_caller : {V : Type 0} (o : Outcome V) (f : Frame V) → (ended o f).caller ≡ f.caller
ended_caller (returned v) f = refl
ended_caller (threw e) f = refl

pub ended_done : {V : Type 0} (o : Outcome V) (f : Frame V) → (ended o f).done ≡ true
ended_done (returned v) f = refl
ended_done (threw e) f = refl

pub store-same :
    {V : Type 0} (h : ℕ) (f : Option (Frame V)) (m : Memory V) → (store h f m).frames h ≡ f
store-same h f m = rw (eq_refl h) refl

pub store-other :
    {V : Type 0} (h a : ℕ) (f : Option (Frame V)) (m : Memory V)
    → a ≢ h
    → (store h f m).frames a ≡ m.frames a
store-other h a f m n = rw (ne_false a h n) refl

pub end_body_lem :
    {V : Type 0} (o : Outcome V) (h : ℕ) (f : Frame V) (m : Memory V)
    → m.frames h ≡ some f
    → end_body o h m ≡ some (final_frame h (ended o f) (store h (some (ended o f)) m))
unfolding end_body final_suspend
end_body_lem o h f m e =
    rw (e, end_body) (rw (store-same h (some (ended o f)) m, final_suspend) refl)

pub get_value_lem :
    {V : Type 0} (h : ℕ) (f : Frame V) (m : Memory V)
    → m.frames h ≡ some f
    → get_value h m ≡ some (value_of f)
unfolding get_value
get_value_lem h f m e = rw (e, get_value) refl

pub await_ready_lem :
    {V : Type 0} (h : ℕ) (f : Frame V) (m : Memory V)
    → m.frames h ≡ some f
    → await_ready (some h) m ≡ some f.done
unfolding await_ready
await_ready_lem h f m e = rw (e, await_ready) refl

pub final_frame-caller :
    {V : Type 0} (h c : ℕ) (f : Frame V) (m : Memory V)
    → f.caller ≡ some c
    → final_frame h f m ≡ (resume c, m)
final_frame-caller h c f m e = rw (e) refl

module _ {V : Type 0} (m : Memory V) (caller callee : ℕ) (c f : Frame V) (o : Outcome V) where
  -- The frame of a task that was awaited, and then ended.
  abbrev pub after : Frame V
  after = ended o (record f { caller = some caller; context = c.context })

  -- A task that has not ended and holds no exception is awaited by another coroutine, and its body
  -- ends later. Control goes to the task at once, but for a daemon, which runs already. When the body
  -- ends, control goes back to the awaiting coroutine, no `finish` is called, and what it gets is the
  -- value that was returned, or the exception that was thrown. No frame is destroyed.
  pub await_round :
      caller ≢ callee
      → m.frames caller ≡ some c
      → m.frames callee ≡ some f
      → f.ex ≡ none
      → (m₁ m₂ : Memory V) × (await_suspend caller callee m
          ≡ some (if is_daemon f.flags then noop else resume callee, m₁))
        × (end_body o callee m₁ ≡ some (resume caller, m₂))
        × (get_value callee m₂ ≡ some (result_of o))
        × (await_ready (some callee) m₂ ≡ some true)
        × (m₂.frames caller ≡ some c)
        × (m₂.finished ≡ m.finished)
  unfolding await_suspend
  await_round apart p q clean =
      let f' : Frame V = record f { caller = some caller; context = c.context } in
      let m₁ : Memory V = store callee (some f') m in
      let m₂ : Memory V = store callee (some after) m₁ in
      let kept : m₂.frames callee ≡ some after = store-same callee (some after) m₁ in
      (
        m₁,
        m₂,
        rw (p, q, await_suspend) refl,
        end_body_lem o callee f' m₁ (store-same callee (some f') m)
            ∙ ap some (final_frame-caller callee caller after m₂ (ended_caller o f')),
        get_value_lem callee after m₂ kept ∙ ap some (value_of-ended o f' clean),
        await_ready_lem callee after m₂ kept ∙ ap some (ended_done o f'),
        store-other callee caller (some after) m₁ apart
            ∙ store-other callee caller (some f') m apart
            ∙ p,
        refl,
      )

pub ended_flags : {V : Type 0} (o : Outcome V) (f : Frame V) → (ended o f).flags ≡ f.flags
ended_flags (returned v) f = refl
ended_flags (threw e) f = refl

pub ended_context : {V : Type 0} (o : Outcome V) (f : Frame V) → (ended o f).context ≡ f.context
ended_context (returned v) f = refl
ended_context (threw e) f = refl

pub final_frame-daemon :
    {V : Type 0} (h : ℕ) (f : Frame V) (m : Memory V)
    → f.caller ≡ none
    → is_daemon f.flags ≡ true
    → final_frame h f m ≡ (noop, m)
final_frame-daemon h f m e d = rw (e, d) refl

pub final_frame-gone :
    {V : Type 0} (h : ℕ) (f : Frame V) (m : Memory V)
    → f.caller ≡ none
    → is_daemon f.flags ≡ false
    → final_frame h f m ≡ (noop, store h none (task_finish f.context m))
final_frame-gone h f m e y = rw (e, y) refl

pub final_frame-finish :
    {V : Type 0} (h c : ℕ) (f : Frame V) (m : Memory V)
    → f.caller ≡ none
    → is_daemon f.flags ≡ false
    → f.context ≡ some c
    → final_frame h f m ≡ (noop, store h none (task_finish (some c) m))
final_frame-finish h c f m e d x = rw (e, d, x) refl

gone_value :
    {V : Type 0} (h : ℕ) (m : Memory V)
    → (get_value h (store h none m) ≡ none) × (await_ready (some h) (store h none m) ≡ none)
unfolding get_value await_ready
gone_value h m = (rw (eq_refl h, get_value) refl, rw (eq_refl h, await_ready) refl)

pub start_lem :
    {V : Type 0} (context h : ℕ) (f : Frame V) (value : Bool) (m : Memory V)
    → m.frames h ≡ some f
    → start context value h m
      ≡ some
          (store h (some (record f { context = some context; flags = set_daemon f.flags value })) m)
unfolding start
start_lem context h f value m e = rw (e, start) refl

-- A task that nobody awaits and that an `io_context` starts, with a flag word of 64 bits. Started by
-- `block_run`, it calls `finish` of that context once when its body ends, whether by a value or by an
-- exception, and its frame is destroyed. Started by `launch`, it calls no `finish`, its frame stays,
-- and a later await finds it ready with its value or exception.
pub started_ends :
    {V : Type 0} (m : Memory V) (context h : ℕ) (f : Frame V) (o : Outcome V) (value : Bool)
    → m.frames h ≡ some f
    → f.caller ≡ none
    → f.ex ≡ none
    → f.flags < 2 ^ 64
    → (m₁ m₂ : Memory V) × (start context value h m ≡ some m₁)
      × (end_body o h m₁ ≡ some (noop, m₂))
      × (m₂.finished ≡ (if value then m.finished else m.finished ++ (context ∷ [])))
      × (await_ready (some h) m₂ ≡ (if value then some true else none))
      × (get_value h m₂ ≡ (if value then some (result_of o) else none))
started_ends m context h f o true e alone clean small =
    let f' : Frame _ = record f { context = some context; flags = set_daemon f.flags true } in
    let m₁ : Memory _ = store h (some f') m in
    let m₂ : Memory _ = store h (some (ended o f')) m₁ in
    let kept : m₂.frames h ≡ some (ended o f') = store-same h (some (ended o f')) m₁ in
    (
      m₁,
      m₂,
      start_lem context h f true m e,
      end_body_lem o h f' m₁ (store-same h (some f') m)
          ∙ ap some (
              final_frame-daemon h (ended o f') m₂ (ended_caller o f' ∙ alone)
                (ap is_daemon (ended_flags o f') ∙ (set_daemon_lem f.flags true small).0)),
      refl,
      await_ready_lem h (ended o f') m₂ kept ∙ ap some (ended_done o f'),
      get_value_lem h (ended o f') m₂ kept ∙ ap some (value_of-ended o f' clean),
    )
started_ends m context h f o false e alone clean small =
    let f' : Frame _ = record f { context = some context; flags = set_daemon f.flags false } in
    let m₁ : Memory _ = store h (some f') m in
    let m₂ : Memory _ = store h (some (ended o f')) m₁ in
    let (no_value, not_ready) = gone_value h (task_finish (some context) m₂) in
    (
      m₁,
      store h none (task_finish (some context) m₂),
      start_lem context h f false m e,
      end_body_lem o h f' m₁ (store-same h (some f') m)
          ∙ ap some (
              final_frame-finish h context (ended o f') m₂ (ended_caller o f' ∙ alone)
                (ap is_daemon (ended_flags o f') ∙ (set_daemon_lem f.flags false small).0)
                (ended_context o f')),
      refl,
      not_ready,
      no_value,
    )
