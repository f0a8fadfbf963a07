-- ===== src/Uring/Loop.antt =====
-- `uring_loop` of kkp/kkp-core/include/kkp/uring/uring_loop.hpp. What `io_uring_wait_cqe` returns
-- is given as a list; a coroutine that is resumed acts on a world of its own.
pub mod Laws
pub mod Waits
use kk_proxy.Common.{
  ℕ, suc, Bool, true, false, Option, none, some, List, [], ◌∷◌, ℤ, pos, negsuc, eq_ℤ, ◌==◌,
  if◌then◌else◌,
}

-- `user_data`: no pointer, the address of `io_data_completed`, or that of an awaiter's `io_data`.
pub data UserData : Type 0 where
  null completed : UserData
  io_data : ℕ → UserData

pub record Cqe : Type 0 where
  pub user_data : UserData
  pub res : ℤ

-- One return of `io_uring_wait_cqe`: its result, and the entry that it points to.
pub data Wait : Type 0 where
  arrived : Cqe → Wait
  arrived_null : Wait
  failed : ℤ → Option Cqe → Wait

-- `-ETIME` of Linux
abbrev pub etime : ℤ
etime = negsuc 61

-- `results` are the `result_` fields, by address; `seen` counts calls of `io_uring_cqe_seen`.
pub record Loop (W : Type 0) : Type 0 where
  pub running : Bool
  pub results : ℕ → ℤ
  pub seen : ℕ
  pub world : W

abbrev pub store_result : (ℕ → ℤ) → ℕ → ℤ → ℕ → ℤ
store_result results p r q = if q == p then r else results q

-- `resumed p r` is `data->handle_()` for the `io_data` at `p` with result `r`.
module _ {W : Type 0} (resumed : ℕ → ℤ → W → W) where
  resume_with : ℤ → UserData → Loop W → Loop W
  resume_with r (io_data p) s = record s {
    results = store_result s.results p r;
    world = resumed p r s.world;
  }
  resume_with r _ s = s

  unfoldable pub resume : Cqe → Loop W → Loop W
  unfolding resume_with
  resume cqe s = elim cqe.user_data [
    | null ↦ s
    | completed ↦ record s { running = false }
    | io_data p ↦ resume_with cqe.res (io_data p) s
  ]

  -- There is no test for `io_data_completed` here: with that entry the code resumes a null handle, which
  -- is undefined and left out, as is an entry that is null after a wait that succeeded.
  unfoldable pub resume_error : ℤ → Option Cqe → Loop W → Loop W
  unfolding resume_with
  resume_error code none s = s
  resume_error code (some cqe) s = resume_with code cqe.user_data s

  unfoldable pub on_wait : Wait → Loop W → Loop W
  unfolding resume resume_error
  on_wait (arrived cqe) s = let t = resume cqe s in record t { seen = suc t.seen }
  on_wait arrived_null s = s
  on_wait (failed res none) s = resume_error res none s
  on_wait (failed res (some cqe)) s =
      if eq_ℤ res etime then resume cqe s else resume_error res (some cqe) s

  -- while (running_): the rest of the list is what the loop has not waited for. A list that ends
  -- while the loop runs leaves it in `io_uring_wait_cqe`.
  unfoldable pub run_loop : List Wait → Loop W → List Wait × Loop W
  unfolding on_wait
  run_loop [] s = ([], s)
  run_loop (w ∷ ws) s = elim s.running [ false ↦ (w ∷ ws, s) | true ↦ run_loop ws (on_wait w s) ]

  unfoldable pub run : List Wait → Loop W → List Wait × Loop W
  unfolding run_loop
  run ws s = run_loop ws (record s { running = true })
