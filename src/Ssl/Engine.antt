-- ===== src/Ssl/Engine.antt =====
-- `ssl_engine` of kkp/kkp-core/include/kkp/ssl/ssl_engine.hpp. Logging and `errno`, which is only
-- logged, are left out.
pub mod Perform
pub mod Ownership
use kk_proxy.Common.{ℕ, List, ℤ, ltb, if◌then◌else◌}
use kk_proxy.Ssl.OpenSsl.{OpenSsl, SslError}
use kk_proxy.Ssl.Status.{SslStatus, error, want_write, get_ssl_status}

module _ (O : OpenSsl) where
  -- bytes of ciphertext that wait for the raw stream
  abbrev pub write_pending : O.Ssl → ℕ
  write_pending s = O.bio_pending_write s

  abbrev pub get_output_pending : O.Ssl → ℕ
  get_output_pending s = O.bio_pending_write s

  abbrev pub read_pending : O.Ssl → ℕ
  read_pending s = O.bio_pending_read s

  -- takes ciphertext in, into the BIO that the SSL object reads
  abbrev pub write : O.Ssl → List ℕ → ℤ → ℤ × O.Ssl
  write = O.bio_write

  -- takes ciphertext out, of the BIO that the SSL object writes
  abbrev pub read : O.Ssl → ℤ → ℤ × List ℕ × O.Ssl
  read = O.bio_read

  -- the plaintext, with the count and its status
  abbrev pub ssl_read : O.Ssl → ℤ → ℤ × SslStatus × List ℕ × O.Ssl
  ssl_read s len = let (n, bytes, t) = O.ssl_read s len in (n, get_ssl_status O t n, bytes, t)

  abbrev pub ssl_write : O.Ssl → List ℕ → ℤ → ℤ × SslStatus × O.Ssl
  ssl_write s buf len = let (n, t) = O.ssl_write s buf len in (n, get_ssl_status O t n, t)

  -- The end of `perform`: pending output first, then a system call error, then the status, which
  -- asks SSL_get_error again after the error queue was read and printed.
  abbrev pub perform_status : O.Ssl → ℤ → SslError → ℕ → SslStatus
  perform_status s result SslError.syscall pending = if ltb 0 pending then want_write else error
  perform_status s result _ pending =
      if ltb 0 pending then want_write else get_ssl_status O s result

  unfoldable pub perform : (O.Ssl → ℤ × O.Ssl) → O.Ssl → SslStatus × O.Ssl
  perform op s =
      let (result, s₁) = op s in
      let ssl_error : SslError = O.get_error s₁ result in
      let (sys_error, s₂) = O.err_get_error s₁ in
      let pending_output_after : ℕ = write_pending s₂ in
      let s₃ : O.Ssl = O.err_print_errors s₂ in
      (perform_status s₃ result ssl_error pending_output_after, s₃)

-- SSL_library_init, whose result is not looked at, SSL_load_error_strings and
-- OpenSSL_add_all_algorithms.
pub record Setup (K : Type 0) : Type 0 where
  pub library_init : K → ℤ × K
  pub load_error_strings : K → K
  pub add_all_algorithms : K → K

abbrev pub init_openssl : {K : Type 0} → Setup K → K → K
init_openssl S k = let (r, k') = S.library_init k in S.add_all_algorithms (S.load_error_strings k')
