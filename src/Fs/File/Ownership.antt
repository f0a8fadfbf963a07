-- ===== src/Fs/File/Ownership.antt =====
-- A file's descriptor has one owner, and `::close` is called for it at most once.
use kk_proxy.Common.{List, ℕ, ◌+◌, ◌≤◌, ◌<◌, inl, inr, pos, arith, is_positive, eq_ℤ, Bool-cases}
use kk_proxy.Descriptors.{Close, IsClose, is_fd, closings, closings-sys_close}
use kk_proxy.Objects.{IsOwner, Step, steps, creations}
use kk_proxy.Objects.Laws.{total}
use kk_proxy.Objects.Laws
use kk_proxy.Fs.File.{File, move_construct, move_assign, destroy, file_class}

module _ {K : Type 0} (sys_close : Close K) (C : IsClose K sys_close) (p : ℕ) where
  abbrev pub held : File → ℕ
  held f = is_fd p f.fd

  -- One move construction, one move assignment and one destruction.
  file_steps :
      (this other : File) (k : K)
      → 0 < p
      → let (new, left) = move_construct other in
        let (new', left', k') = move_assign sys_close this other k in
        (held new + held left ≤ held other)
        × (held new' + held left' + closings C p k' ≤ held this + held other + closings C p k)
        × (closings C p (destroy sys_close this k) ≤ held this + closings C p k)
  unfolding move_assign destroy
  file_steps this other k nonzero =
      let none_held : is_fd p (pos 0) ≤ 0 = ground arith in
      (
        omega arith,
        elim (Bool-cases (is_positive this.fd)) [
          | inl e ↦ rw (e) (omega (arith, closings-sys_close C p this.fd k))
          | inr e ↦ rw (e) (omega arith)
        ],
        elim (Bool-cases (eq_ℤ this.fd (pos 0))) [
          | inl e ↦ rw (e) (omega arith)
          | inr e ↦ rw (e) (omega (arith, closings-sys_close C p this.fd k))
        ],
      )

  file-IsOwner : 0 < p → IsOwner (file_class sys_close) held (closings C p)
  file-IsOwner nonzero = record {
    move_owner =
        λ f. let none_held : is_fd p (pos 0) ≤ 0 = ground arith in omega (arith, none_held);
    assign_owner = λ f g k. (file_steps f g k nonzero).1;
    call_owner = λ x f k.
        let none_held : is_fd p (pos 0) ≤ 0 = ground arith in
        omega (arith, none_held, (file_steps f f k nonzero).2);
  }

  -- For a descriptor other than 0, whatever a program does with its files (opens, moves, assigns or destroys
  -- them, in any order): the files that hold the descriptor (a destroyed one holds none) and the calls of
  -- `::close` for it, whether they succeed or not, are together never more than at the start and the times
  -- it was opened since.
  pub file_total :
      (as' : List (Step File (Unit {0}))) (st : List File × K)
      → 0 < p
      → total held (closings C p) (steps (file_class sys_close) as' st)
        ≤ total held (closings C p) st + creations held as'
  file_total as' st nonzero =
      Laws.total-steps (file_class sys_close) held (closings C p) (file-IsOwner nonzero) as' st
