-- ===== src/Fs/File/Io.antt =====
-- `read` and `write` of `file` in kkp/kkp-core/include/kkp/fs/file.hpp: which awaiter each makes.
use kk_proxy.Common.{ℤ, pos, to_int}
use kk_proxy.ErrorCode.{Result}
use kk_proxy.Uring.Request.{Span, to_unsigned}
use kk_proxy.Uring.Awaiter.Kinds.{Awaiter}
use kk_proxy.Uring.Awaiter.Kinds
use kk_proxy.Fs.File.{File}

module _ {Sqe : Type 0} where
  -- `len` and `off` are each an `int`.
  unfoldable pub read : Span → (len off : ℤ) → File → Awaiter Sqe (Result ℤ)
  read buf len off f = Kinds.read f.fd buf.data_ptr (to_unsigned 32 len) (to_unsigned 64 off)

  -- `read(buf)`: the size goes through an `int`.
  unfoldable pub read_all : Span → File → Awaiter Sqe (Result ℤ)
  read_all buf f = read buf (to_int buf.size) (pos 0) f

  unfoldable pub write : Span → (len off : ℤ) → File → Awaiter Sqe ℤ
  write buf len off f = Kinds.write f.fd buf.data_ptr (to_unsigned 32 len) (to_unsigned 64 off)
