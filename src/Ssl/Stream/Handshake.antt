-- ===== src/Ssl/Stream/Handshake.antt =====
-- `ssl_stream::handshake`. `rounds` and `sends` are the fuel of its two loops: a handshake goes on
-- for as long as OpenSSL and the peer want it to.
pub mod Flush
pub mod Ending
use kk_proxy.Common.{
  ℕ, zero, suc, ◌+◌, ◌-◌, true, false, List, ℤ, pos, pos_part, is_positive, is_negative, negate,
  ltb, take, drop, to_int,
}
use kk_proxy.ErrorCode.{
  Result, ok, make_sys_error, make_custom_error, e_ssl_handshake_failed,
  e_ssl_handshake_socket_read_eof,
}
use kk_proxy.Ssl.OpenSsl.{OpenSsl}
use kk_proxy.Ssl.RawStream.{RawStream}
use kk_proxy.Ssl.Status.{HandshakeType, client, server, SslStatus, want_read, want_write}
use kk_proxy.Ssl.Status
use kk_proxy.Ssl.Engine.{read, write, perform}
use kk_proxy.Ssl.Run.{Run, next, exit, out_of_fuel, and_then}
use kk_proxy.Ssl.Stream.{SslStream}

abbrev pub Shaken : Type 0
Shaken = Result (Unit {0})

module _ (O : OpenSsl) (R : RawStream) where
  -- while (bytes_sent < res): unlike the loop of `send`, it goes on after a result of 0.
  unfoldable pub flush_loop :
      ℕ → (buf : List ℕ) (res bytes_sent : ℕ) → SslStream O R → Run (SslStream O R) Shaken
  flush_loop zero buf res bytes_sent s = out_of_fuel
  flush_loop (suc fuel) buf res bytes_sent s = elim (ltb bytes_sent res) [
    | false ↦ next s
    | true ↦
        let (sent, raw') = R.send s.raw (take (res - bytes_sent) (drop bytes_sent buf)) (pos 0) in
        let s' : SslStream O R = record s { raw = raw' } in
        elim (is_negative sent) [
          | true ↦ exit (make_sys_error (negate sent)) s'
          | false ↦ flush_loop fuel buf res (bytes_sent + pos_part sent) s'
        ]
  ]

  -- case ssl_status::want_write
  unfoldable pub on_want_write : ℕ → SslStream O R → Run (SslStream O R) Shaken
  unfolding flush_loop
  on_want_write sends s =
      let (res, buf, engine') = read O s.engine (pos 4096) in
      let s' : SslStream O R = record s { engine = engine' } in
      elim (is_positive res) [
        | false ↦ exit (make_custom_error e_ssl_handshake_failed) s'
        | true ↦ flush_loop sends buf (pos_part res) 0 s'
      ]

  -- case ssl_status::want_read. The second argument of `recv` is its flag: the source passes the
  -- size of the buffer, 4096, there.
  unfoldable pub on_want_read : SslStream O R → Run (SslStream O R) Shaken
  on_want_read s =
      let (r, buf, raw') = R.recv s.raw 4096 (pos 4096) in
      let s₁ : SslStream O R = record s { raw = raw' } in
      elim (is_negative r) [
        | true ↦ exit (make_sys_error (negate r)) s₁
        | false ↦ elim (is_positive r) [
          | false ↦ exit (make_custom_error e_ssl_handshake_socket_read_eof) s₁
          | true ↦
              let (res, engine') = write O s.engine buf r in
              let s₂ : SslStream O R = record s₁ { engine = engine' } in
              elim (is_positive res) [
                | false ↦ exit (make_custom_error e_ssl_handshake_failed) s₂
                | true ↦ next s₂
              ]
        ]
      ]

  -- case ssl_status::error and error_syscall
  unfoldable pub on_error : SslStream O R → Run (SslStream O R) Shaken
  unfolding to_int
  on_error s =
      let (err, engine') = O.err_get_error s.engine in
      exit (make_sys_error (negate (to_int err))) (record s { engine = O.err_print_errors engine' })

  -- The `switch`: `next` goes round the loop again.
  unfoldable pub on_status : ℕ → SslStatus → SslStream O R → Run (SslStream O R) Shaken
  unfolding on_want_write on_want_read on_error
  on_status sends Status.ok s = exit (ok tt) s
  on_status sends Status.error s = on_error s
  on_status sends Status.error_syscall s = on_error s
  on_status sends want_read s = on_want_read s
  on_status sends want_write s = on_want_write sends s

  unfoldable pub handshake_round :
      (O.Ssl → ℤ × O.Ssl) → ℕ → SslStream O R → Run (SslStream O R) Shaken
  unfolding on_status
  handshake_round op sends s =
      let (status, engine') = perform O op s.engine in
      on_status sends status (record s { engine = engine' })

  -- while (!done)
  unfoldable pub handshake_loop :
      ℕ → (O.Ssl → ℤ × O.Ssl) → ℕ → SslStream O R → Run (SslStream O R) Shaken
  unfolding handshake_round
  handshake_loop zero op sends s = out_of_fuel
  handshake_loop (suc rounds) op sends s =
      and_then (handshake_round op sends s) (λ t. handshake_loop rounds op sends t)

  unfoldable pub handshake :
      (rounds sends : ℕ) → HandshakeType → SslStream O R → Run (SslStream O R) Shaken
  unfolding handshake_loop
  handshake rounds sends client s =
      handshake_loop rounds O.ssl_connect sends (record s { engine = O.set_connect_state s.engine })
  handshake rounds sends server s =
      handshake_loop rounds O.ssl_accept sends (record s { engine = O.set_accept_state s.engine })
