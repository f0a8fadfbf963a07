-- ===== src/Tests/Toy.antt =====
-- A null cipher in place of OpenSSL, and a raw stream that takes two bytes at a time.
use kk_proxy.Common.{
  zero, suc, append_assoc, ◌∙◌, ℕ, ◌≤◌, ◌≡◌, ◌≢◌, ◌↔◌, refl, sym, ap, Bool, true, false, List, [],
  ◌∷◌, ◌++◌, append-nil, arith, ℤ, pos, negsuc, pos_part, is_positive, ltb, if◌then◌else◌, length,
  take, drop, Bool-cases, inl, inr, length-take,
}
use kk_proxy.Ssl.OpenSsl.{OpenSsl, SslError, IsDocumented}
use kk_proxy.Ssl.RawStream.{RawStream, SendsFront}
use kk_proxy.Ssl.Stream.Recv.Feed.{IsMemoryBio, Receives}
use kk_proxy.Ssl.Stream.Recv.Exact.{not_positive}

-- The content of the two BIOs, and what passed; `greeted`: the handshake's one message is written.
pub record Plain : Type 0 where
  pub inp : List ℕ
  pub out : List ℕ
  pub produced : List ℕ
  pub accepted : List ℕ
  pub decrypted : List ℕ
  pub greeted : Bool

abbrev pub fresh : Plain
fresh = record { inp = []; out = []; produced = []; accepted = []; decrypted = []; greeted = false }

-- what BIO_read returns
abbrev read_count : List ℕ → ℕ → ℤ
read_count [] n = negsuc 0
read_count (x ∷ xs) n = pos (length (take n (x ∷ xs)))

abbrev read_out : Plain → ℤ → ℤ × List ℕ × Plain
read_out s n = (
  read_count s.out (pos_part n),
  take (pos_part n) s.out,
  record s { out = drop (pos_part n) s.out },
)

abbrev pub emit : List ℕ → Plain → Plain
emit bytes s = record s { out = s.out ++ bytes; produced = s.produced ++ bytes }

abbrev pub greet : Plain → ℤ × Plain
greet s = (
  if s.greeted then pos 1 else negsuc 0,
  record (emit (if s.greeted then [] else 22 ∷ []) s) { greeted = true },
)

-- A record has two bytes or more: one byte alone is not complete.
abbrev decrypt : Plain → ℤ → ℤ × List ℕ × Plain
decrypt s n =
    let got : List ℕ = if ltb 1 (length s.inp) then take (pos_part n) s.inp else [] in
    (
      if ltb 1 (length s.inp) then pos (length got) else negsuc 0,
      got,
      record s { inp = drop (length got) s.inp; decrypted = s.decrypted ++ got },
    )

abbrev encrypt : Plain → List ℕ → ℤ → ℤ × Plain
encrypt s buf n = (
  pos (pos_part n),
  record (emit (take (pos_part n) buf) s) { accepted = s.accepted ++ take (pos_part n) buf },
)

abbrev pub null_cipher : OpenSsl
null_cipher = record {
  Ssl = Plain;
  ssl_connect = greet;
  ssl_accept = greet;
  set_connect_state = λ s. s;
  set_accept_state = λ s. s;
  ssl_read = decrypt;
  ssl_write = encrypt;
  bio_write = λ s buf n. (n, record s { inp = s.inp ++ take (pos_part n) buf });
  bio_read = read_out;
  bio_pending_read = λ s. length s.inp;
  bio_pending_write = λ s. length s.out;
  get_error = λ s n. if is_positive n then SslError.none else SslError.want_read;
  err_get_error = λ s. (0, s);
  err_print_errors = λ s. s;
}

pub read_count-some : (xs : List ℕ) (n : ℕ) → xs ≢ [] → read_count xs n ≡ pos (length (take n xs))
read_count-some [] n h = absurd (h refl)
read_count-some (x ∷ xs) n h = refl

pub read_count-none : (xs : List ℕ) (n : ℕ) → xs ≡ [] → is_positive (read_count xs n) ≡ false
read_count-none [] n h = refl
read_count-none (x ∷ xs) n h = cc

pub none_positive :
    (s : Plain) (n : ℤ) → (null_cipher.get_error s n ≡ SslError.none) ↔ (is_positive n ≡ true)
none_positive s n = elim (Bool-cases (is_positive n)) [
  | inl p ↦ rw (p) ((λ _. refl), (λ _. refl))
  | inr p ↦ rw (p) ((λ h. cc), (λ h. cc))
]

pub decrypt_count :
    (s : Plain) (n : ℤ)
    → (pos_part (decrypt s n).0 ≤ pos_part n) × (length (decrypt s n).1 ≡ pos_part (decrypt s n).0)
decrypt_count s n = elim (Bool-cases (ltb 1 (length s.inp))) [
  | inl p ↦ rw (p) (omega (arith, length-take (pos_part n) s.inp), refl)
  | inr p ↦ rw (p) (omega arith, refl)
]

abbrev pub null_cipher-IsDocumented : IsDocumented null_cipher
null_cipher-IsDocumented = record {
  outgoing = λ s. s.out;
  produced = λ s. s.produced;
  accepted = λ s. s.accepted;
  decrypted = λ s. s.decrypted;
  pending = λ s. refl;
  bio_read-count = λ s n h. read_count-some s.out n h;
  bio_read-empty = λ s n h. read_count-none s.out n h;
  bio_read-bytes = λ s n. refl;
  bio_read-outgoing = λ s n. refl;
  bio_read-produced = λ s n. refl;
  bio_read-accepted = λ s n. refl;
  bio_write-keeps = λ s buf n. (refl, refl);
  set_connect_state-keeps = λ s. (refl, refl);
  set_accept_state-keeps = λ s. (refl, refl);
  err_get_error-keeps = λ s. (refl, refl);
  err_print_errors-keeps = λ s. (refl, refl);
  ssl_connect-appends = λ s. (_, refl, refl);
  ssl_accept-appends = λ s. (_, refl, refl);
  ssl_write-appends = λ s buf n. (take (pos_part n) buf, refl, refl);
  ssl_write-count = λ s buf n. omega arith;
  ssl_write-accepted = λ s buf n. refl;
  ssl_read-appends = λ s n. ([], sym (append-nil s.out), sym (append-nil s.produced));
  ssl_read-decrypted = λ s n. refl;
  bio_write-decrypted = λ s buf n. refl;
  ssl_read-count = λ s n. decrypt_count s n;
  get_error-none = λ s n. none_positive s n;
}

-- `incoming` are the messages that the peer sends.
pub record Wire : Type 0 where
  pub sent : List ℕ
  pub incoming : List (List ℕ)
  pub received : List ℕ

abbrev pub quiet : Wire
quiet = record { sent = []; incoming = []; received = [] }

abbrev taken : List ℕ → ℤ
taken [] = negsuc 0
taken (x ∷ []) = pos 1
taken (x ∷ y ∷ rest) = pos 2

abbrev receive : Wire → ℕ → ℤ × List ℕ × Wire
receive s len = elim s.incoming [
  | [] ↦ (pos 0, [], s)
  | m ∷ ms ↦ (
    pos (length (take len m)),
    take len m,
    record s { incoming = ms; received = s.received ++ take len m },
  )
]

abbrev pub wire : RawStream
wire = record {
  State = Wire;
  send = λ s buf flag. (taken buf, record s { sent = s.sent ++ take (pos_part (taken buf)) buf });
  recv = λ s len flag. receive s len;
  is_alive = λ s. true;
  close = λ s. (true, s);
}

take-append-rest : (n : ℕ) (xs : List ℕ) → take n xs ++ drop (length (take n xs)) xs ≡ xs
take-append-rest zero xs = refl
take-append-rest (suc n) [] = refl
take-append-rest (suc n) (x ∷ xs) = ap (◌∷◌ x) (take-append-rest n xs)

pub taken-count : (buf : List ℕ) → pos_part (taken buf) ≤ length buf
taken-count [] = omega arith
taken-count (x ∷ []) = omega arith
taken-count (x ∷ y ∷ rest) = omega arith

pub sent-receive :
    (s : Wire) (ms : List (List ℕ)) (len : ℕ)
    → (receive (record s { incoming = ms }) len).2.sent ≡ s.sent
sent-receive s [] len = refl
sent-receive s (m ∷ ms) len = refl

abbrev pub wire-SendsFront : SendsFront wire
wire-SendsFront = record {
  sent = λ s. s.sent;
  send-count = λ s buf flag. taken-count buf;
  sent-send = λ s buf flag. refl;
  sent-recv = λ s len flag. sent-receive s s.incoming len;
}

pub wire_moves : (raw : Wire) (buf : List ℕ) (flag : ℤ) → (wire.send raw buf flag).0 ≢ pos 0
wire_moves raw [] flag = λ h. cc
wire_moves raw (x ∷ []) flag = λ h. absurd (omega (arith, ap pos_part h))
wire_moves raw (x ∷ y ∷ rest) flag = λ h. absurd (omega (arith, ap pos_part h))

-- All that was fed was decrypted, or is still in the BIO.
abbrev fed : Plain → List ℕ
fed s = s.decrypted ++ s.inp

pub fed-bio_write :
    (s : Plain) (buf : List ℕ) (n : ℤ)
    → s.decrypted ++ (s.inp ++ take (pos_part n) buf)
      ≡ (if is_positive n then fed s ++ take (pos_part n) buf else fed s)
fed-bio_write s buf n = elim (Bool-cases (is_positive n)) [
  | inl p ↦ rw (p) (sym (append_assoc s.decrypted s.inp (take (pos_part n) buf)))
  | inr p ↦
      let none : pos_part n ≡ 0 = not_positive n p in
      rw (p, none) (ap (◌++◌ s.decrypted) (append-nil s.inp))
]

fed-take :
    (n : ℕ) (s : Plain)
    → (s.decrypted ++ take n s.inp) ++ drop (length (take n s.inp)) s.inp ≡ fed s
fed-take n s =
    append_assoc s.decrypted (take n s.inp) (drop (length (take n s.inp)) s.inp)
    ∙ ap (◌++◌ s.decrypted) (take-append-rest n s.inp)

pub fed-decrypt : (s : Plain) (n : ℤ) → fed (decrypt s n).2 ≡ fed s
fed-decrypt s n = elim (Bool-cases (ltb 1 (length s.inp))) [
  | inl p ↦ rw (p) (fed-take (pos_part n) s)
  | inr p ↦ rw (p) (ap (λ x. x ++ s.inp) (append-nil s.decrypted))
]

abbrev pub null_cipher-IsMemoryBio : IsMemoryBio null_cipher
null_cipher-IsMemoryBio = record {
  fed = fed;
  bio_write-fed = λ s buf n. fed-bio_write s buf n;
  ssl_read-fed = λ s n. fed-decrypt s n;
}

pub received-receive :
    (s : Wire) (ms : List (List ℕ)) (len : ℕ)
    → let r = receive (record s { incoming = ms }) len in
      (length r.1 ≡ pos_part r.0) × (r.2.received ≡ s.received ++ r.1)
received-receive s [] len = (refl, sym (append-nil s.received))
received-receive s (m ∷ ms) len = (refl, refl)

abbrev pub wire-Receives : Receives wire
wire-Receives = record {
  received = λ s. s.received;
  recv-count = λ s len flag. (received-receive s s.incoming len).0;
  received-recv = λ s len flag. (received-receive s s.incoming len).1;
}

-- A raw stream that takes nothing.
abbrev pub stalled : RawStream
stalled = record {
  State = Wire;
  send = λ s buf flag. (pos 0, s);
  recv = λ s len flag. (pos 0, [], s);
  is_alive = λ s. true;
  close = λ s. (true, s);
}
