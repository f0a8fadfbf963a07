-- ===== src/Ssl/Stream/Recv.antt =====
-- `ssl_stream::recv`, `read_leftover` and `clear_left`. A call returns its result with the bytes
-- that it put at the front of the caller's buffer, which has room for `len`.
pub mod Sizes
pub mod Exact
pub mod Feed
use kk_proxy.Common.{
  ℕ, zero, suc, ◌+◌, ◌-◌, ◌*◌, ◌%◌, ◌^◌, Bool, true, false, List, [], ◌∷◌, ◌++◌, ℤ, pos, negsuc,
  pos_part, is_positive, to_int, ltb, leb, if◌then◌else◌, length, take, drop, replicate, min,
}
use kk_proxy.Ssl.OpenSsl.{OpenSsl}
use kk_proxy.Ssl.RawStream.{RawStream}
use kk_proxy.Ssl.Status.{SslStatus, ok, want_read, want_write, get_ssl_status}
use kk_proxy.Ssl.Engine.{read, write, ssl_read}
use kk_proxy.Ssl.Run.{Run, next, exit, thrown, out_of_fuel, and_then}
use kk_proxy.Ssl.Stream.{SslStream}

abbrev pub Received : Type 0
Received = ℤ × List ℕ

-- status == want_read || status == want_write
abbrev pub wants_io : SslStatus → Bool
wants_io want_read = true
wants_io want_write = true
wants_io _ = false

abbrev pub is_ok : SslStatus → Bool
is_ok ok = true
is_ok _ = false

-- a - b on `size_t`
abbrev pub sub_size : ℕ → ℕ → ℕ
sub_size a b = (a + 2 ^ 64 - b) % 2 ^ 64

-- `std::vector::reserve`: the capacity never falls.
abbrev pub reserve : ℕ → ℕ → ℕ
reserve capacity n = if ltb capacity n then n else capacity

module _ (O : OpenSsl) (R : RawStream) where
  unfoldable pub clear_left : SslStream O R → ℕ × SslStream O R
  clear_left s = (length s.leftover, record s { leftover = [] })

  -- The count as a `size_t`, the bytes copied and the rest.
  unfoldable pub read_leftover : ℕ → SslStream O R → ℕ × List ℕ × SslStream O R
  read_leftover size s = elim s.leftover [
    | [] ↦ (0, [], s)
    | _ ∷ _ ↦
        let len : ℕ = min size (length s.leftover) in
        (len, take len s.leftover, record s { leftover = drop len s.leftover })
  ]

  -- What the spill branch does to `leftover_`: the bytes are read behind the last element, and
  -- `resize` then puts zeros in their place.
  abbrev spilled : SslStream O R → ℕ → SslStream O R
  spilled s decrypted = record s { leftover = s.leftover ++ replicate decrypted 0 }

  -- The read of that branch: from the write BIO, and not from the SSL object.
  abbrev spill_read : SslStream O R → ℤ × SslStream O R
  spill_read s =
      let remaining : ℕ = sub_size s.capacity (length s.leftover) in
      let capacity : ℕ =
        if leb remaining 0 then reserve s.capacity (s.capacity * 2) else s.capacity in
      let (decrypted, bytes, engine') = read O s.engine (to_int remaining) in
      (decrypted, record s { engine = engine'; capacity = capacity })

  -- The branch for a buffer with room; `again` is the next round.
  unfoldable pub decrypt_some :
      (room total : ℕ) (out : List ℕ)
      → SslStream O R
      → (ℕ → List ℕ → SslStream O R → Run (SslStream O R) Received)
      → Run (SslStream O R) Received
  decrypt_some room total out s again =
      let (decrypted, status, bytes, engine') = ssl_read O s.engine (to_int room) in
      let s' : SslStream O R = record s { engine = engine' } in
      elim (is_positive decrypted) [
        | true ↦ elim (is_ok status) [
          | true ↦ exit (pos (total + pos_part decrypted), out ++ bytes) s'
          | false ↦ again (total + pos_part decrypted) (out ++ bytes) s'
        ]
        | false ↦ elim (wants_io status) [
          | true ↦ exit (pos total, out) s'
          | false ↦ exit (negsuc 0, out) s'
        ]
      ]

  -- The branch for a full buffer.
  unfoldable pub spill_some :
      (total : ℕ) (out : List ℕ)
      → SslStream O R
      → (SslStream O R → Run (SslStream O R) Received)
      → Run (SslStream O R) Received
  spill_some total out s again =
      let (decrypted, s') = spill_read s in
      elim (is_positive decrypted) [
        | true ↦ again (spilled s' (pos_part decrypted))
        | false ↦ elim (wants_io (get_ssl_status O s'.engine decrypted)) [
          | true ↦ exit (pos total, out) s'
          | false ↦ exit (negsuc 0, out) s'
        ]
      ]

  -- while (true) of `recv`, with `out` the `total_decrypted` bytes put in the buffer so far
  unfoldable pub decrypt_loop :
      ℕ → (len total : ℕ) (out : List ℕ) → SslStream O R → Run (SslStream O R) Received
  unfolding decrypt_some spill_some
  decrypt_loop zero len total out s = out_of_fuel
  decrypt_loop (suc fuel) len total out s = elim (ltb 0 (sub_size len total)) [
    | true ↦
        decrypt_some (sub_size len total) total out s
          (λ more got t. decrypt_loop fuel len more got t)
    | false ↦ spill_some total out s (λ t. decrypt_loop fuel len total out t)
  ]

  -- From the raw stream's `recv` on.
  unfoldable pub recv_raw : ℕ → (len : ℕ) → ℤ → SslStream O R → Run (SslStream O R) Received
  unfolding decrypt_loop
  recv_raw fuel len flag s =
      let (bytes_received, raw_buf, raw') = R.recv s.raw len flag in
      let s₁ : SslStream O R = record s { raw = raw' } in
      elim (is_positive bytes_received) [
        | false ↦ exit (bytes_received, []) s₁
        | true ↦
            let (bytes_bio_written, engine') = write O s.engine raw_buf bytes_received in
            let s₂ : SslStream O R = record s₁ { engine = engine' } in
            elim (is_positive bytes_bio_written) [
              | false ↦ exit (negsuc 0, []) s₂
              | true ↦ decrypt_loop fuel len 0 [] s₂
            ]
      ]

  -- Behind `read_leftover`.
  unfoldable pub recv_engine : ℕ → (len : ℕ) → ℤ → SslStream O R → Run (SslStream O R) Received
  unfolding recv_raw
  recv_engine fuel len flag s =
      let (res, status, bytes, engine') = ssl_read O s.engine (to_int len) in
      let s' : SslStream O R = record s { engine = engine' } in
      elim (is_positive res) [ true ↦ exit (res, bytes) s' | false ↦ recv_raw fuel len flag s' ]

  unfoldable pub recv : ℕ → (len : ℕ) → ℤ → SslStream O R → Run (SslStream O R) Received
  unfolding recv_engine read_leftover to_int
  recv fuel len flag s =
      let (res, bytes, s') = read_leftover len s in
      elim (ltb 0 res) [ true ↦ exit (to_int res, bytes) s' | false ↦ recv_engine fuel len flag s' ]
