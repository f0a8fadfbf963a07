-- ===== src/Ssl/Stream/Recv/Sizes.antt =====
-- The length of the first block that `ssl_stream::recv` reads into.
use kk_proxy.Common.{ℕ, ◌^◌, ◌<◌, ◌≡◌, arith}
use kk_proxy.Ssl.Stream.Recv.{sub_size}

pub sub_size_zero : (len : ℕ) → len < 2 ^ 31 → sub_size len 0 ≡ len
sub_size_zero len h = omega arith
