-- ===== src/Tests/Sockets.antt =====
-- Runs of kkp/kkp-core/include/kkp/net/socket.hpp on a kernel that is the list of closed descriptors.
use kk_proxy.Common.{ℕ, ◌≤◌, ◌≡◌, ◌≢◌, refl, true, false, List, [], ◌∷◌, none, ℤ, pos, negsuc, ◌+◌}
use kk_proxy.Descriptors.{Close, IsClose}
use kk_proxy.Objects.{Step, created, assigned, called, steps}
use kk_proxy.Net.Socket.{
  Socket, opened, Call, closing, destroying, close, move_assign, socket_class,
}
use kk_proxy.Net.Socket.Ownership.{held, total-steps}
use kk_proxy.Objects.Laws.{total}
use kk_proxy.Descriptors.{closings, failures}

abbrev pub sys_close : Close (List ℤ)
sys_close fd k = (pos 0, fd ∷ k)

pub true_ne_false : true ≢ false
true_ne_false = λ e. cc

abbrev pub sys_close-IsClose : IsClose (List ℤ) sys_close
sys_close-IsClose = record {
  closed = λ k. k;
  failed = λ k. [];
  close-ok = λ fd k e. (refl, refl);
  close-failed = λ fd k e. absurd (true_ne_false e);
}

-- A kernel where each call fails.
abbrev failing_close : Close (List ℤ)
failing_close fd k = (negsuc 4, fd ∷ k)

pos_ne_negsuc : (a b : ℕ) → negsuc a ≢ pos b
pos_ne_negsuc a b = λ e. cc

abbrev failing_close-IsClose : IsClose (List ℤ) failing_close
failing_close-IsClose = record {
  closed = λ k. [];
  failed = λ k. k;
  close-ok = λ fd k e. absurd (pos_ne_negsuc 4 0 e);
  close-failed = λ fd k e. (refl, refl);
}

abbrev pub socket_on : ℕ → Socket ℕ
socket_on fd = opened none (pos fd) 0

-- The socket 5 is moved over the socket 6, which closes 6, and then 5 is closed by its new owner.
abbrev a_program : List (Step (Socket ℕ) Call)
a_program =
    created (socket_on 5)
    ∷ created (socket_on 6)
    ∷ assigned 1 0
    ∷ called destroying 0
    ∷ called closing 1
    ∷ called destroying 1
    ∷ []

a_program_closes : (steps (socket_class sys_close) a_program ([], [])).1 ≡ pos 5 ∷ pos 6 ∷ []
unfolding steps close move_assign
a_program_closes = refl

-- After a failed call the destructor calls `::close` again.
closes_twice :
    (steps
      (socket_class failing_close)
      (created (socket_on 5) ∷ called closing 0 ∷ called destroying 0 ∷ [])
      ([], [])).1
    ≡ pos 5 ∷ pos 5 ∷ []
unfolding steps close move_assign
closes_twice = refl

total-steps_example :
    let st' = steps (socket_class failing_close) a_program ([], []) in
    total (held failing_close failing_close-IsClose 5) (closings failing_close-IsClose 5) st' + 0
    ≤ 1 + failures failing_close-IsClose 5 st'.1
total-steps_example = total-steps failing_close failing_close-IsClose 5 a_program ([], [])
