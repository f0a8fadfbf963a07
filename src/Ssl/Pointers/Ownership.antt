-- ===== src/Ssl/Pointers/Ownership.antt =====
-- An object of OpenSSL that a `std::unique_ptr` holds has one owner, and is freed at most once.
use kk_proxy.Common.{ℕ, ◌+◌, ◌≤◌, Option, none, some, List, ◌==◌, if◌then◌else◌, arith}
use kk_proxy.Objects.{IsOwner, Step, steps, holders, creations}
use kk_proxy.Objects.Laws.{total}
use kk_proxy.Objects.Laws
use kk_proxy.Ssl.Pointers.{
  Kind, ssl_ctx, ssl, bio, Freeing, ssl_ctx_free, ssl_free, bio_free, UniquePtr, PtrCall, releasing,
  resetting, destroying, Heap, give, delete, call, ptr_class,
}

-- A call of another function than that of the type.
abbrev pub is_wrong : Kind → Freeing → ℕ
is_wrong ssl_ctx (ssl_ctx_free p) = 0
is_wrong ssl (ssl_free p) = 0
is_wrong bio (bio_free p) = 0
is_wrong _ _ = 1

abbrev pub freed_ptr : Freeing → ℕ
freed_ptr (ssl_ctx_free p) = p
freed_ptr (ssl_free p) = p
freed_ptr (bio_free p) = p

module _ (t : Kind) (p : ℕ) where
  abbrev pub is_ptr : ℕ → ℕ
  is_ptr q = if q == p then 1 else 0

  abbrev pub held : UniquePtr → ℕ
  held u = elim u.get [ none ↦ 0 | some q ↦ is_ptr q ]

  abbrev pub frees : Freeing → ℕ
  frees f = is_ptr (freed_ptr f)

  -- How often the object was freed, by whichever function, and given away by `release()`, and how often
  -- anything was freed by a function of another type.
  abbrev pub given_up : Heap → ℕ
  given_up k = holders frees k.freeings + holders is_ptr k.given + holders (is_wrong t) k.freeings

  given_up-delete :
      (q : Option ℕ) (k : Heap) → given_up (delete t q k) ≤ held (record { get = q }) + given_up k
  given_up-delete none k = omega arith
  given_up-delete (some q) k = right t
    where
      right :
          (t : Kind)
          → holders frees (delete t (some q) k).freeings
              + holders is_ptr (delete t (some q) k).given
              + holders (is_wrong t) (delete t (some q) k).freeings
            ≤ is_ptr q
              + (holders frees k.freeings
                  + holders is_ptr k.given
                  + holders (is_wrong t) k.freeings)
      right ssl_ctx = omega arith
      right ssl = omega arith
      right bio = omega arith

  holders-give :
      (q : Option ℕ) (ps : List ℕ)
      → holders is_ptr (give q ps) ≤ held (record { get = q }) + holders is_ptr ps
  holders-give none ps = omega arith
  holders-give (some q) ps = omega arith

  call_owner :
      (x : PtrCall) (u : UniquePtr) (k : Heap)
      → let (u', k') = call t x u k in held u' + given_up k' ≤ held u + given_up k
  call_owner releasing u k = omega (arith, holders-give u.get k.given)
  call_owner resetting u k = omega (arith, given_up-delete u.get k)
  call_owner destroying u k = omega (arith, given_up-delete u.get k)

  pub ptr-IsOwner : IsOwner (ptr_class t) held given_up
  ptr-IsOwner = record {
    move_owner = λ u. omega arith;
    assign_owner = λ u v k. omega (arith, given_up-delete u.get k);
    call_owner = call_owner;
  }

  -- Whatever a program does with its pointers of one type (makes, moves, assigns, releases, resets or
  -- destroys them, in any order), those that hold an object, the times it was freed or released, and the
  -- times that anything was freed by the function of another type, are together never more than at the
  -- start and the pointers made of the object since.
  pub pointer_total :
      (as' : List (Step UniquePtr PtrCall)) (st : List UniquePtr × Heap)
      → total held given_up (steps (ptr_class t) as' st)
        ≤ total held given_up st + creations held as'
  pointer_total as' st = Laws.total-steps (ptr_class t) held given_up ptr-IsOwner as' st
