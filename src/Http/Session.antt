-- ===== src/Http/Session.antt =====
-- `base_session` of kkp/kkp-http/include/kkp/http/base_session.hpp. `T` is the stream that it holds.
use kk_proxy.Common.{Bool, true}

pub data HttpVersion : Type 0 where
  http_1_0 http_1_1 http_2_0 quic : HttpVersion

-- `http_version` is virtual: each kind of session has its own.
pub record BaseSession (T : Type 0) : Type 0 where
  pub underlying_stream : T
  pub keep_alive : Bool
  pub http_version : HttpVersion

abbrev pub base_session : {T : Type 0} → HttpVersion → T → BaseSession T
base_session v stream = record { underlying_stream = stream; keep_alive = true; http_version = v }

abbrev pub is_alive : {T : Type 0} → (T → Bool) → BaseSession T → Bool
is_alive stream_is_alive s = stream_is_alive s.underlying_stream

-- It does nothing.
abbrev pub close : {T : Type 0} → BaseSession T → BaseSession T
close s = s
