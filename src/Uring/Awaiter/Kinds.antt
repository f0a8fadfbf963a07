-- ===== src/Uring/Awaiter/Kinds.antt =====
-- The awaiters of kkp/kkp-core/include/kkp/uring/awaiter/: with which call each prepares its entry, and
-- what its `await_resume` returns. The ring is given when the awaiter is made.
use kk_proxy.Common.{ℕ, ℤ}
use kk_proxy.ErrorCode.{Result}
use kk_proxy.Uring.Request.{
  Request, prep_accept, prep_connect, prep_link_timeout, prep_read, prep_recv, prep_send,
  prep_timeout, prep_write,
}
use kk_proxy.Uring.Awaiter.{
  BaseUringAwaiter, plain_resume, connect_resume, read_resume, timeout_resume,
}

pub record Awaiter (Sqe T : Type 0) : Type 0 where
  pub request : Request
  pub await_resume : BaseUringAwaiter Sqe → T

module _ {Sqe : Type 0} where
  unfoldable pub accept : (fd : ℤ) (addr addrlen : ℕ) (flags : ℤ) → Awaiter Sqe ℤ
  accept fd addr addrlen flags = record {
    request = prep_accept fd addr addrlen flags;
    await_resume = plain_resume;
  }

  unfoldable pub connect : (fd : ℤ) (addr addrlen : ℕ) → Awaiter Sqe (Result ℤ)
  connect fd addr addrlen = record {
    request = prep_connect fd addr addrlen;
    await_resume = connect_resume;
  }

  -- `ts` is the address of the awaiter's own copy of the timespec, here and in `timeout`.
  unfoldable pub link_timeout : (ts flags : ℕ) → Awaiter Sqe ℤ
  link_timeout ts flags = record {
    request = prep_link_timeout ts flags;
    await_resume = plain_resume;
  }

  unfoldable pub read : (fd : ℤ) (buf nbytes offset : ℕ) → Awaiter Sqe (Result ℤ)
  read fd buf nbytes offset = record {
    request = prep_read fd buf nbytes offset;
    await_resume = read_resume;
  }

  unfoldable pub recv : (fd : ℤ) (buf len : ℕ) (flags : ℤ) → Awaiter Sqe ℤ
  recv fd buf len flags = record {
    request = prep_recv fd buf len flags;
    await_resume = plain_resume;
  }

  unfoldable pub send : (fd : ℤ) (buf len : ℕ) (flags : ℤ) → Awaiter Sqe ℤ
  send fd buf len flags = record {
    request = prep_send fd buf len flags;
    await_resume = plain_resume;
  }

  unfoldable pub timeout : (ts count flags : ℕ) → Awaiter Sqe (Result (Unit {0}))
  timeout ts count flags = record {
    request = prep_timeout ts count flags;
    await_resume = timeout_resume;
  }

  unfoldable pub write : (fd : ℤ) (buf nbytes offset : ℕ) → Awaiter Sqe ℤ
  write fd buf nbytes offset = record {
    request = prep_write fd buf nbytes offset;
    await_resume = plain_resume;
  }
