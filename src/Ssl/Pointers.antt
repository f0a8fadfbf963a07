-- ===== src/Ssl/Pointers.antt =====
-- kkp/kkp-core/include/kkp/ssl/kkp_openssl.hpp: the deleter, and the `std::unique_ptr` types that use it.
-- The world is the list of the calls of OpenSSL that free something, the newest first.
pub mod Ownership
use kk_proxy.Common.{ℕ, Option, none, some, List, ◌∷◌}
use kk_proxy.Objects.{Class}

-- The types that the deleter takes; any other is refused when it is compiled.
pub data Kind : Type 0 where
  ssl_ctx ssl bio : Kind

-- The three functions, by what they were called with.
pub data Freeing : Type 0 where
  ssl_ctx_free ssl_free bio_free : ℕ → Freeing

abbrev pub free_call : Kind → ℕ → Freeing
free_call ssl_ctx ptr = ssl_ctx_free ptr
free_call ssl ptr = ssl_free ptr
free_call bio ptr = bio_free ptr

-- operator(): if (ptr)
abbrev pub kkp_openssl_free : Kind → Option ℕ → List Freeing → List Freeing
kkp_openssl_free t none k = k
kkp_openssl_free t (some ptr) k = free_call t ptr ∷ k

-- `ssl_ctx_ptr`, `ssl_ptr` and `bio_ptr`
pub record UniquePtr : Type 0 where
  pub get : Option ℕ

-- `release()` and `reset()` of a `std::unique_ptr`, and its destructor, which leaves a null in its place.
pub data PtrCall : Type 0 where
  releasing resetting destroying : PtrCall

-- The calls that freed something, and the pointers that `release()` gave away.
pub record Heap : Type 0 where
  pub freeings : List Freeing
  pub given : List ℕ

abbrev pub move_construct : UniquePtr → UniquePtr × UniquePtr
move_construct other = (record { get = other.get }, record { get = none })

abbrev pub give : Option ℕ → List ℕ → List ℕ
give none ps = ps
give (some p) ps = p ∷ ps

module _ (t : Kind) where
  abbrev pub delete : Option ℕ → Heap → Heap
  delete p k = record k { freeings = kkp_openssl_free t p k.freeings }

  -- `reset(other.release())`: the old pointer is freed after the new one is in its place.
  abbrev pub move_assign : UniquePtr → UniquePtr → Heap → UniquePtr × UniquePtr × Heap
  move_assign this other k =
      let (new, left) = move_construct other in (new, left, delete this.get k)

  abbrev pub call : PtrCall → UniquePtr → Heap → UniquePtr × Heap
  call releasing p k = (record { get = none }, record k { given = give p.get k.given })
  call resetting p k = (record { get = none }, delete p.get k)
  call destroying p k = (record { get = none }, delete p.get k)

  abbrev pub ptr_class : Class UniquePtr Heap PtrCall
  ptr_class = record { move = move_construct; assign = move_assign; call = call }
