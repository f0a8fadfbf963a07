-- ===== src/Ssl/Engine/Ownership.antt =====
-- The construction, the moves and the destruction of `ssl_engine`. The allocation of OpenSSL is a
-- parameter: it is not part of the repository.
use kk_proxy.Common.{ℕ, ◌≡◌, refl, ◌∙◌, ap, Option, none, some, List, ◌∷◌}

-- SSL_new of a context, BIO_new of a memory BIO (`none` is a null pointer), SSL_set_bio, SSL_free and
-- BIO_free.
pub record Alloc (K : Type 0) : Type 0 where
  pub ssl_new : ℕ → K → Option ℕ × K
  pub bio_new : K → Option ℕ × K
  pub set_bio : (ssl rbio wbio : ℕ) → K → K
  pub ssl_free : ℕ → K → K
  pub bio_free : ℕ → K → K

-- SSL_set_bio(3): the SSL object takes over the ownership of both BIOs. SSL_free(3): it frees the BIOs
-- of the object too. `freed` are the BIOs that were freed so far, `bios` those that an SSL object owns.
pub record IsAlloc {K : Type 0} (A : Alloc K) : Type 0 where
  pub freed : K → List ℕ
  pub bios : K → ℕ → Option (ℕ × ℕ)
  pub freed-ssl_new : (ctx : ℕ) (k : K) → freed (A.ssl_new ctx k).1 ≡ freed k
  pub freed-bio_new : (k : K) → freed (A.bio_new k).1 ≡ freed k
  pub freed-set_bio : (s r w : ℕ) (k : K) → freed (A.set_bio s r w k) ≡ freed k
  pub bios-set_bio : (s r w : ℕ) (k : K) → bios (A.set_bio s r w k) s ≡ some (r, w)
  pub freed-ssl_free :
      (s r w : ℕ) (k : K) → bios k s ≡ some (r, w) → freed (A.ssl_free s k) ≡ r ∷ w ∷ freed k
  pub freed-bio_free : (b : ℕ) (k : K) → freed (A.bio_free b k) ≡ b ∷ freed k

-- `ssl_`, `read_bio_` and `write_bio_`
pub record SslEngine : Type 0 where
  pub ssl : Option ℕ
  pub read_bio : Option ℕ
  pub write_bio : Option ℕ

-- The move constructor.
abbrev pub move_construct : SslEngine → SslEngine × SslEngine
move_construct other = (other, record { ssl = none; read_bio = none; write_bio = none })

-- if (ptr != nullptr)
abbrev pub free_with : {K : Type 0} → (ℕ → K → K) → Option ℕ → K → K
free_with free none k = k
free_with free (some p) k = free p k

module _ {K : Type 0} (A : Alloc K) where
  -- Each step of the constructor, with the pointer that the step before gave. `none`: it throws, and
  -- what was allocated until then is not freed.
  abbrev pub with_write : ℕ → ℕ → Option ℕ → K → Option SslEngine × K
  with_write s r none k = (none, k)
  with_write s r (some w) k =
      (some (record { ssl = some s; read_bio = some r; write_bio = some w }), A.set_bio s r w k)

  abbrev pub with_read : ℕ → Option ℕ → K → Option SslEngine × K
  with_read s none k = (none, k)
  with_read s (some r) k = let (w, k') = A.bio_new k in with_write s r w k'

  abbrev pub with_ssl : Option ℕ → K → Option SslEngine × K
  with_ssl none k = (none, k)
  with_ssl (some s) k = let (r, k') = A.bio_new k in with_read s r k'

  unfoldable pub ssl_engine : ℕ → K → Option SslEngine × K
  ssl_engine ctx k = let (ssl, k') = A.ssl_new ctx k in with_ssl ssl k'

  -- ~ssl_engine
  abbrev pub destroy : SslEngine → K → SslEngine × K
  destroy e k = (record e { ssl = none }, free_with A.ssl_free e.ssl k)

  -- The move assignment of another engine.
  abbrev pub move_assign : SslEngine → SslEngine → K → SslEngine × SslEngine × K
  move_assign this other k =
      let (new, left) = move_construct other in
      (
        new,
        left,
        free_with A.bio_free this.write_bio
            (free_with A.bio_free this.read_bio (free_with A.ssl_free this.ssl k)),
      )

  module _ (D : IsAlloc A) where
    open D use {freed, bios}

    -- An engine over an SSL object that owns its two BIOs.
    abbrev pub Owns : SslEngine → K → Type 0
    Owns e k =
        (s r w : ℕ) × (e ≡ record { ssl = some s; read_bio = some r; write_bio = some w })
        × (bios k s ≡ some (r, w))

    with_write-Owns :
        (s r : ℕ) (w : Option ℕ) (k : K) (e : SslEngine)
        → (with_write s r w k).0 ≡ some e
        → Owns e (with_write s r w k).1 × (freed (with_write s r w k).1 ≡ freed k)
    with_write-Owns s r none k e h = cc
    with_write-Owns s r (some w) k e h =
        ((s, r, w, cc, D.bios-set_bio s r w k), D.freed-set_bio s r w k)

    with_read-Owns :
        (s : ℕ) (r : Option ℕ) (k : K) (e : SslEngine)
        → (with_read s r k).0 ≡ some e
        → Owns e (with_read s r k).1 × (freed (with_read s r k).1 ≡ freed k)
    with_read-Owns s none k e h = cc
    with_read-Owns s (some r) k e h =
        let (o, f) = with_write-Owns s r (A.bio_new k).0 (A.bio_new k).1 e h in
        (o, f ∙ D.freed-bio_new k)

    with_ssl-Owns :
        (s : Option ℕ) (k : K) (e : SslEngine)
        → (with_ssl s k).0 ≡ some e
        → Owns e (with_ssl s k).1 × (freed (with_ssl s k).1 ≡ freed k)
    with_ssl-Owns none k e h = cc
    with_ssl-Owns (some s) k e h =
        let (o, f) = with_read-Owns s (A.bio_new k).0 (A.bio_new k).1 e h in
        (o, f ∙ D.freed-bio_new k)

    -- An engine that was constructed and then destroyed has freed each of its two BIOs once. If it is
    -- overwritten by a move assignment instead, each of the two is freed twice: by SSL_free, which owns
    -- them, and again by BIO_free.
    pub engine_frees :
        (ctx : ℕ) (k : K) (e other : SslEngine)
        → (ssl_engine ctx k).0 ≡ some e
        → let k' = (ssl_engine ctx k).1 in
          (r w : ℕ) × (e.read_bio ≡ some r)
          × (e.write_bio ≡ some w)
          × (freed (destroy e k').1 ≡ r ∷ w ∷ freed k)
          × (freed (move_assign e other k').2 ≡ w ∷ r ∷ r ∷ w ∷ freed k)
    unfolding ssl_engine
    engine_frees ctx k e other h =
        let (ssl, k₀) = A.ssl_new ctx k in
        let k' = (with_ssl ssl k₀).1 in
        let ((s, r, w, q, b), f) = with_ssl-Owns ssl k₀ e h in
        let once : freed (A.ssl_free s k') ≡ r ∷ w ∷ freed k =
          D.freed-ssl_free s r w k' b ∙ ap (λ x. r ∷ w ∷ x) (f ∙ D.freed-ssl_new ctx k) in
        rw (q) (
          r,
          w,
          refl,
          refl,
          once,
          D.freed-bio_free w (A.bio_free r (A.ssl_free s k'))
              ∙ ap (◌∷◌ w) (D.freed-bio_free r (A.ssl_free s k') ∙ ap (◌∷◌ r) once),
        )
