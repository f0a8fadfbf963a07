-- ===== src/Coro/Alloc.antt =====
-- `operator new` and `operator delete` of a promise in kkp/kkp-core/include/kkp/coro/task.hpp, through
-- which the frames are allocated. The global allocator is a parameter.
use kk_proxy.Common.{ℕ, Option, none, some}

-- `none`: `std::bad_alloc` is thrown.
pub record Allocator (K : Type 0) : Type 0 where
  pub new : (size : ℕ) → K → Option ℕ × K
  pub delete : (ptr : ℕ) → K → K

-- A pointer, or the exception again, `none`.
unfoldable pub operator_new : {K : Type 0} → Allocator K → (size : ℕ) → K → Option ℕ × K
operator_new A size k =
    let (ptr, k') = A.new size k in elim ptr [ none ↦ (none, k') | some p ↦ (some p, k') ]

-- The size is not passed on.
unfoldable pub operator_delete : {K : Type 0} → Allocator K → (ptr size : ℕ) → K → K
operator_delete A ptr size k = A.delete ptr k
