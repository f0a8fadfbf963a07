-- ===== src/Ssl/Run.antt =====
-- How a stretch of a coroutine ends, over an explicit state.
use Prim.Native.String.{String}

pub data Run (S A : Type 0) : Type 0 where
  -- control goes on behind the loop
  next : S → Run S A
  -- `co_return`
  exit : A → S → Run S A
  -- `throw std::runtime_error`
  thrown : String → S → Run S A
  out_of_fuel : Run S A

abbrev pub and_then : {S A : Type 0} → Run S A → (S → Run S A) → Run S A
and_then (next s) k = k s
and_then (exit n s) k = exit n s
and_then (thrown e s) k = thrown e s
and_then out_of_fuel k = out_of_fuel

-- Enough fuel, and a postcondition for each way to end.
pub data Ends {S A : Type 0} (P : S → Type 0) (Q : A → S → Type 0) (T : S → Type 0)
    : Run S A → Type 0 where
  nexts : {s : S} → P s → Ends P Q T (next s)
  exits : {n : A} {s : S} → Q n s → Ends P Q T (exit n s)
  throws : {e : String} {s : S} → T s → Ends P Q T (thrown e s)

module _ {S A : Type 0} {P : S → Type 0} {Q : A → S → Type 0} {T : S → Type 0} where
  pub bind :
      {P' : S → Type 0} {r : Run S A} {k : S → Run S A}
      → Ends P Q T r
      → ((s : S) → P s → Ends P' Q T (k s))
      → Ends P' Q T (and_then r k)
  bind (nexts p) f = f _ p
  bind (exits q) f = exits q
  bind (throws t) f = throws t

  pub mono :
      {P' : S → Type 0} {Q' : A → S → Type 0} {T' : S → Type 0} {r : Run S A}
      → Ends P Q T r
      → ((s : S) → P s → P' s)
      → ((n : A) (s : S) → Q n s → Q' n s)
      → ((s : S) → T s → T' s)
      → Ends P' Q' T' r
  mono (nexts p) f g h = nexts (f _ p)
  mono (exits q) f g h = exits (g _ _ q)
  mono (throws t) f g h = throws (h _ t)

-- A postcondition for each way to end, for code that may run for ever.
pub data Safe {S A : Type 0} (P : S → Type 0) (Q : A → S → Type 0) : Run S A → Type 0 where
  goes_on : {s : S} → P s → Safe P Q (next s)
  returns : {n : A} {s : S} → Q n s → Safe P Q (exit n s)
  runs : Safe P Q out_of_fuel

pub Safe-and_then :
    {S A : Type 0} {P P' : S → Type 0} {Q : A → S → Type 0} {r : Run S A} {k : S → Run S A}
    → Safe P Q r
    → ((s : S) → P s → Safe P' Q (k s))
    → Safe P' Q (and_then r k)
Safe-and_then (goes_on p) f = f _ p
Safe-and_then (returns q) f = returns q
Safe-and_then runs f = runs
