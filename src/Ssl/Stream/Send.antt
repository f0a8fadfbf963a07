-- ===== src/Ssl/Stream/Send.antt =====
-- `ssl_stream::send`. Each loop runs on fuel; a round of a loop handles at least one byte, so that
-- one round more than there are bytes is enough.
pub mod Drain
pub mod Delivery
use kk_proxy.Common.{
  ℕ, zero, suc, ◌+◌, ◌-◌, true, false, List, ℤ, pos, pos_part, is_positive, to_int, ltb, length,
  take, drop,
}
use kk_proxy.Ssl.OpenSsl.{OpenSsl}
use kk_proxy.Ssl.RawStream.{RawStream}
use kk_proxy.Ssl.Status.{SslStatus, want_read, want_write, get_ssl_status}
use kk_proxy.Ssl.Engine.{read, write_pending}
use kk_proxy.Ssl.Run.{Run, next, exit, thrown, out_of_fuel, and_then}
use kk_proxy.Ssl.Stream.{SslStream}

module _ (O : OpenSsl) (R : RawStream) (flag : ℤ) where
  -- while (bytes_sent < count): hands `buf[bytes_sent .. count)` to the raw stream
  unfoldable pub raw_send_loop :
      ℕ → (buf : List ℕ) (count bytes_sent : ℕ) → SslStream O R → Run (SslStream O R) ℤ
  raw_send_loop zero buf count bytes_sent s = out_of_fuel
  raw_send_loop (suc fuel) buf count bytes_sent s = elim (ltb bytes_sent count) [
    | false ↦ next s
    | true ↦
        let (raw_send, raw') =
          R.send s.raw (take (count - bytes_sent) (drop bytes_sent buf)) flag in
        let s' : SslStream O R = record s { raw = raw' } in
        elim (is_positive raw_send) [
          | false ↦ exit raw_send s'
          | true ↦ raw_send_loop fuel buf count (bytes_sent + pos_part raw_send) s'
        ]
  ]

  -- `read` of the engine gave nothing
  abbrev read_failed : SslStatus → SslStream O R → Run (SslStream O R) ℤ
  read_failed want_read s = next s
  read_failed want_write s = next s
  read_failed _ s = thrown "ssl read error TODO" s

  -- while (true): moves the pending ciphertext to the raw stream, 4096 bytes at a time
  unfoldable pub drain_loop : ℕ → SslStream O R → Run (SslStream O R) ℤ
  unfolding raw_send_loop
  drain_loop zero s = out_of_fuel
  drain_loop (suc fuel) s = elim (ltb 0 (write_pending O s.engine)) [
    | false ↦ next s
    | true ↦
        let (ssl_read, write_buf, engine') = read O s.engine (pos 4096) in
        let s' : SslStream O R = record s { engine = engine' } in
        elim (is_positive ssl_read) [
          | false ↦ read_failed (get_ssl_status O engine' ssl_read) s'
          | true ↦
              and_then (raw_send_loop (pos_part ssl_read + 1) write_buf (pos_part ssl_read) 0 s')
                (λ t. drain_loop fuel t)
        ]
  ]

  -- while (bytes_consumed < len): encrypts the rest of the buffer and drains
  unfoldable pub send_loop :
      ℕ → (buf : List ℕ) (bytes_consumed : ℕ) → SslStream O R → Run (SslStream O R) ℤ
  unfolding drain_loop
  send_loop zero buf bytes_consumed s = out_of_fuel
  send_loop (suc fuel) buf bytes_consumed s = elim (ltb bytes_consumed (length buf)) [
    | false ↦ exit (to_int bytes_consumed) s
    | true ↦
        let (res, engine') =
          O.ssl_write s.engine (drop bytes_consumed buf) (to_int (length buf - bytes_consumed)) in
        let s' : SslStream O R = record s { engine = engine' } in
        elim (is_positive res) [
          | false ↦ thrown "ssl write error TODO" s'
          | true ↦
              and_then (drain_loop (write_pending O engine' + 1) s')
                (λ t. send_loop fuel buf (bytes_consumed + pos_part res) t)
        ]
  ]

  unfoldable pub send : List ℕ → SslStream O R → Run (SslStream O R) ℤ
  unfolding send_loop to_int
  send buf s = send_loop (length buf + 1) buf 0 s
