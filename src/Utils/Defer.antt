-- ===== src/Utils/Defer.antt =====
-- `defer` of kkp/kkp-core/include/kkp/kkp_traits.hpp with the macro KKP_DEFER, and `match` on an optional.
use kk_proxy.Common.{Option, none, some}

-- What is behind a `KKP_DEFER(fn)` in a block, with how it is left, by a value or by an exception, as its
-- result: the destructor calls `fn` when the block is left.
abbrev pub defer : {S A : Type 0} → (fn : S → S) → (block : S → A × S) → S → A × S
defer fn block s = let (a, t) = block s in (a, fn t)

-- The visitor is invoked with the value, or with nothing.
abbrev pub match : {T R : Type 0} → (visitor_of : T → R) (visitor : R) → Option T → R
match visitor_of visitor none = visitor
match visitor_of visitor (some x) = visitor_of x
