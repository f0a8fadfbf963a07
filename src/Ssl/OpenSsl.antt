-- ===== src/Ssl/OpenSsl.antt =====
-- What kkp/kkp-core/include/kkp/ssl/ calls of OpenSSL, which is not part of the repository: the
-- operations as a parameter, and the documented behaviour that the proofs rely on.
use kk_proxy.Common.{
  ℕ, ◌≤◌, ◌≡◌, ◌≢◌, ◌↔◌, true, false, List, [], ◌++◌, ℤ, pos, pos_part, is_positive, length, take,
  drop,
}

-- The codes of SSL_get_error that the program tells apart.
pub data SslError : Type 0 where
  none want_read want_write syscall : SslError
  other : ℕ → SslError

-- `Ssl` is an SSL object with its two memory BIOs and the thread's error queue. An operation that
-- fills a buffer returns its result, the bytes that it put at the front of the buffer, and the
-- new state; a buffer to be read is given with the count that is passed beside it.
pub record OpenSsl : Type 1 where
  pub Ssl : Type 0
  pub ssl_connect : Ssl → ℤ × Ssl
  pub ssl_accept : Ssl → ℤ × Ssl
  pub set_connect_state : Ssl → Ssl
  pub set_accept_state : Ssl → Ssl
  pub ssl_read : Ssl → ℤ → ℤ × List ℕ × Ssl
  pub ssl_write : Ssl → List ℕ → ℤ → ℤ × Ssl
  -- BIO_write on the read BIO, BIO_read on the write BIO
  pub bio_write : Ssl → List ℕ → ℤ → ℤ × Ssl
  pub bio_read : Ssl → ℤ → ℤ × List ℕ × Ssl
  -- BIO_ctrl_pending on each
  pub bio_pending_read : Ssl → ℕ
  pub bio_pending_write : Ssl → ℕ
  pub get_error : Ssl → ℤ → SslError
  pub err_get_error : Ssl → ℕ × Ssl
  pub err_print_errors : Ssl → Ssl

-- An operation may append to the write BIO, and does nothing else to it.
abbrev pub Appends : {S : Type 0} → (S → List ℕ) → (S → List ℕ) → S → S → Type 0
Appends outgoing produced s t =
    (bytes : List ℕ) × (outgoing t ≡ outgoing s ++ bytes) × (produced t ≡ produced s ++ bytes)

abbrev pub Keeps : {S : Type 0} → (S → List ℕ) → (S → List ℕ) → S → S → Type 0
Keeps outgoing produced s t = (outgoing t ≡ outgoing s) × (produced t ≡ produced s)

-- The manual pages of BIO_s_mem, BIO_read, SSL_read, SSL_write and SSL_get_error. `outgoing` is
-- the content of the write BIO, `produced` all that was ever written to it, and `accepted` all the
-- plaintext that SSL_write took; `decrypted` is all the plaintext that SSL_read gave.
pub record IsDocumented (O : OpenSsl) : Type 0 where
  pub outgoing : O.Ssl → List ℕ
  pub produced : O.Ssl → List ℕ
  pub accepted : O.Ssl → List ℕ
  pub decrypted : O.Ssl → List ℕ
  pub pending : (s : O.Ssl) → O.bio_pending_write s ≡ length (outgoing s)
  pub bio_read-count :
      (s : O.Ssl) (n : ℕ)
      → outgoing s ≢ []
      → (O.bio_read s (pos n)).0 ≡ pos (length (take n (outgoing s)))
  pub bio_read-empty :
      (s : O.Ssl) (n : ℕ) → outgoing s ≡ [] → is_positive (O.bio_read s (pos n)).0 ≡ false
  pub bio_read-bytes : (s : O.Ssl) (n : ℕ) → (O.bio_read s (pos n)).1 ≡ take n (outgoing s)
  pub bio_read-outgoing :
      (s : O.Ssl) (n : ℕ) → outgoing (O.bio_read s (pos n)).2 ≡ drop n (outgoing s)
  pub bio_read-produced : (s : O.Ssl) (n : ℕ) → produced (O.bio_read s (pos n)).2 ≡ produced s
  pub bio_read-accepted : (s : O.Ssl) (n : ℕ) → accepted (O.bio_read s (pos n)).2 ≡ accepted s
  pub bio_write-keeps :
      (s : O.Ssl) (buf : List ℕ) (n : ℤ) → Keeps outgoing produced s (O.bio_write s buf n).1
  pub set_connect_state-keeps : (s : O.Ssl) → Keeps outgoing produced s (O.set_connect_state s)
  pub set_accept_state-keeps : (s : O.Ssl) → Keeps outgoing produced s (O.set_accept_state s)
  pub err_get_error-keeps : (s : O.Ssl) → Keeps outgoing produced s (O.err_get_error s).1
  pub err_print_errors-keeps : (s : O.Ssl) → Keeps outgoing produced s (O.err_print_errors s)
  pub ssl_connect-appends : (s : O.Ssl) → Appends outgoing produced s (O.ssl_connect s).1
  pub ssl_accept-appends : (s : O.Ssl) → Appends outgoing produced s (O.ssl_accept s).1
  pub ssl_write-appends :
      (s : O.Ssl) (buf : List ℕ) (n : ℤ) → Appends outgoing produced s (O.ssl_write s buf n).1
  pub ssl_write-count :
      (s : O.Ssl) (buf : List ℕ) (n : ℤ) → pos_part (O.ssl_write s buf n).0 ≤ pos_part n
  pub ssl_write-accepted :
      (s : O.Ssl) (buf : List ℕ) (n : ℤ)
      → accepted (O.ssl_write s buf n).1 ≡ accepted s ++ take (pos_part (O.ssl_write s buf n).0) buf
  pub ssl_read-appends : (s : O.Ssl) (n : ℤ) → Appends outgoing produced s (O.ssl_read s n).2
  pub ssl_read-decrypted :
      (s : O.Ssl) (n : ℤ) → decrypted (O.ssl_read s n).2 ≡ decrypted s ++ (O.ssl_read s n).1
  pub bio_write-decrypted :
      (s : O.Ssl) (buf : List ℕ) (n : ℤ) → decrypted (O.bio_write s buf n).1 ≡ decrypted s
  pub ssl_read-count :
      (s : O.Ssl) (n : ℤ)
      → (pos_part (O.ssl_read s n).0 ≤ pos_part n)
        × (length (O.ssl_read s n).1 ≡ pos_part (O.ssl_read s n).0)
  -- "This result code is returned if and only if ret > 0."
  pub get_error-none :
      (s : O.Ssl) (n : ℤ) → (O.get_error s n ≡ SslError.none) ↔ (is_positive n ≡ true)
