-- ===== src/Ssl/RawStream.antt =====
-- The concept `kk_stream` of kkp/kkp-core/include/kkp/kkp_traits.hpp: what an `ssl_stream` asks of
-- the stream below it. The kernel and the peer act between two calls: they are in the state.
use kk_proxy.Common.{ℕ, ◌≤◌, ◌≡◌, Bool, List, ◌++◌, ℤ, pos_part, length, take}

pub record RawStream : Type 1 where
  pub State : Type 0
  pub send : State → List ℕ → ℤ → ℤ × State
  pub recv : State → ℕ → ℤ → ℤ × List ℕ × State
  pub is_alive : State → Bool
  pub close : State → Bool × State

-- send(2): a positive result is the number of bytes, from the front of the buffer, that were sent;
-- any other result sends nothing. `sent` is all that was sent so far.
pub record SendsFront (R : RawStream) : Type 0 where
  pub sent : R.State → List ℕ
  pub send-count :
      (s : R.State) (buf : List ℕ) (flag : ℤ) → pos_part (R.send s buf flag).0 ≤ length buf
  pub sent-send :
      (s : R.State) (buf : List ℕ) (flag : ℤ)
      → sent (R.send s buf flag).1 ≡ sent s ++ take (pos_part (R.send s buf flag).0) buf
  pub sent-recv : (s : R.State) (len : ℕ) (flag : ℤ) → sent (R.recv s len flag).2 ≡ sent s
