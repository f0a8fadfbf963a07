-- ===== src/Ssl/Stream/Ownership.antt =====
-- What an `ssl_stream` over a socket owns, and its moves and destruction:
-- kkp/kkp-core/include/kkp/ssl/ssl_stream.hpp.
use kk_proxy.Common.{ℕ, Bool, List, []}
use kk_proxy.Descriptors.{Close}
use kk_proxy.Net.Socket.{Socket}
use kk_proxy.Net.Socket
use kk_proxy.Ssl.Engine.Ownership.{Alloc, SslEngine}
use kk_proxy.Ssl.Engine.Ownership

pub record SslStream (P : Type 0) : Type 0 where
  pub raw_stream : Socket P
  pub ssl_engine : SslEngine
  pub leftover : List ℕ

module _ {P : Type 0} where
  -- The constructor, over the engine that the constructor of the engine has made: the stream, and what is left
  -- of the socket. (When that one throws, the socket was moved already and is closed.)
  abbrev pub ssl_stream : Socket P → SslEngine → SslStream P × Socket P
  ssl_stream raw engine =
      let (new, left) = Socket.move_construct raw in
      (record { raw_stream = new; ssl_engine = engine; leftover = [] }, left)

  -- The move constructor.
  abbrev pub move_construct : SslStream P → SslStream P × SslStream P
  move_construct other =
      let (raw, raw_left) = Socket.move_construct other.raw_stream in
      let (engine, engine_left) = Ownership.move_construct other.ssl_engine in
      (
        record { raw_stream = raw; ssl_engine = engine; leftover = other.leftover },
        record { raw_stream = raw_left; ssl_engine = engine_left; leftover = [] },
      )

-- `k` is the kernel, and `m` the memory of OpenSSL.
module _ {P K M : Type 0} (sys_close : Close K) (A : Alloc M) where
  -- The move assignment of another stream.
  abbrev pub move_assign : SslStream P → SslStream P → K × M → SslStream P × SslStream P × (K × M)
  move_assign this other (k, m) =
      let (raw, raw_left, k') = Socket.move_assign sys_close this.raw_stream other.raw_stream k in
      let (engine, engine_left, m') = Ownership.move_assign A this.ssl_engine other.ssl_engine m in
      (
        record { raw_stream = raw; ssl_engine = engine; leftover = other.leftover },
        record { raw_stream = raw_left; ssl_engine = engine_left; leftover = [] },
        (k', m'),
      )

  -- The implicit destructor: the engine, and then the socket.
  abbrev pub destroy : SslStream P → K × M → SslStream P × (K × M)
  destroy s (k, m) =
      let (engine, m') = Ownership.destroy A s.ssl_engine m in
      let (raw, k') = Socket.destroy sys_close s.raw_stream k in
      (record s { raw_stream = raw; ssl_engine = engine }, (k', m'))

  -- `close` closes the socket only, and sends no `close_notify`.
  abbrev pub close : SslStream P → K × M → Bool × SslStream P × (K × M)
  close s (k, m) =
      let (done, raw, k') = Socket.close sys_close s.raw_stream k in
      (done, record s { raw_stream = raw }, (k', m))
