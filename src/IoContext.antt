-- ===== src/IoContext.antt =====
-- `finish` and the constructor of kkp/kkp-core/include/kkp/io_context.hpp. liburing is a parameter.
pub mod Laws
use kk_proxy.Common.{ℕ, ℤ, ◌≡◌, Option, none, some, List, [], ◌∷◌, ◌++◌, pos}
use kk_proxy.Uring.Loop.{UserData, completed, Cqe, Wait, arrived}

-- io_uring_get_sqe, io_uring_sqe_set_data, io_uring_prep_nop and io_uring_submit.
pub record NopRing (Sqe R : Type 0) : Type 0 where
  pub get_sqe : R → Option Sqe × R
  pub set_data : Sqe → UserData → R → R
  pub prep_nop : Sqe → R → R
  pub submit : R → R

-- The object, with the thread pool of its loop by the number of threads. Nothing is submitted to the pool.
pub record IoContext (R : Type 0) : Type 0 where
  pub ring : R
  pub concurrency_n : ℤ

-- io_uring_queue_init(3): a ring, or a negative result and the ring as it was, which here is zeroed.
pub record RingInit (R K : Type 0) : Type 0 where
  pub zeroed : R
  pub queue_init : (entries flags : ℕ) → R → K → ℤ × R × K

-- The constructor. The result of the initialisation is not looked at.
abbrev pub io_context : {R K : Type 0} → RingInit R K → ℤ → K → IoContext R × K
io_context I concurrency_n k =
    let (result, ring, k') = I.queue_init 1024 0 I.zeroed k in
    (record { ring = ring; concurrency_n = concurrency_n }, k')

-- The completion of a NOP.
abbrev pub nop_done : UserData → Wait
nop_done d = arrived (record { user_data = d; res = pos 0 })

-- io_uring_prep_nop(3): the entry completes with result 0 and with its user data. `waits` is what
-- io_uring_wait_cqe will give when nothing else is submitted; the NOP may overtake what is in flight.
pub record IsNopRing {Sqe R : Type 0} (L : NopRing Sqe R) : Type 0 where
  pub waits : R → List Wait
  pub nop_arrives :
      (ring : R) (q : Sqe) (d : UserData)
      → (L.get_sqe ring).0 ≡ some q
      → (before after : List Wait) × (waits ring ≡ before ++ after)
        × (waits (L.submit (L.prep_nop q (L.set_data q d (L.get_sqe ring).1)))
            ≡ before ++ (nop_done d ∷ after))

-- `none`: there is no free entry, and the null pointer of `io_uring_get_sqe` is written to.
unfoldable pub finish : {Sqe R : Type 0} → NopRing Sqe R → R → Option R
finish L ring =
    let (sqe, ring) = L.get_sqe ring in
    elim sqe [ none ↦ none | some q ↦ some (L.submit (L.prep_nop q (L.set_data q completed ring))) ]
