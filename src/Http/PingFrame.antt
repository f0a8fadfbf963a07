-- ===== src/Http/PingFrame.antt =====
-- `ping_frame` of kkp/kkp-http/include/kkp/http/v2/frames/ping_frame.hpp.
use kk_proxy.Common.{ℕ, Bool, false, List, take, replicate}

pub record PingFrame : Type 0 where
  pub ack : Bool
  pub payload : List ℕ

abbrev pub type : ℕ
type = 6

abbrev pub length : ℕ
length = 8

-- The default constructor.
abbrev pub empty : PingFrame
empty = record { ack = false; payload = replicate 8 0 }

-- memcpy of eight bytes of the span.
abbrev pub ping_frame : Bool → List ℕ → PingFrame
ping_frame ack payload = record { ack = ack; payload = take 8 payload }

abbrev pub is_ack : PingFrame → Bool
is_ack f = f.ack
