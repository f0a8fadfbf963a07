-- ===== src/Tests/Owners.antt =====
-- Runs of `server_socket`, of `task` as the owner of a handle, and of the construction and the end of
-- an `ssl_engine`, and of `stream`.
use kk_proxy.Common.{
  ℕ, ◌+◌, ◌==◌, ◌≤◌, ◌≡◌, refl, true, false, ◌⊎◌, Option, none, some, List, [], ◌∷◌, ◌++◌, ℤ, pos,
  negsuc, negate, is_negative, arith, take, if◌then◌else◌,
}
use kk_proxy.ErrorCode.{ok, make_sys_error}
use kk_proxy.Objects.{Step, created, moved, assigned, called, steps}
use kk_proxy.Objects.Laws.{total}
use kk_proxy.Net.Address.{address, htons}
use kk_proxy.Net.ServerSocket.{ServerSocket, Calls, bind}
use kk_proxy.Net.ServerSocket.Laws.{bind_lem}
use kk_proxy.Coro.Handle.{Task, Handles, Call, taking, destroying, get_return_object, task_class}
use kk_proxy.Coro.Handle.Laws.{held, given_up, handle_total}
use kk_proxy.Ssl.Engine.Ownership.{
  Alloc, IsAlloc, SslEngine, ssl_engine, destroy, move_assign, engine_frees,
}
use kk_proxy.Net.Socket
use kk_proxy.Ssl.Pointers.{ssl, ssl_free, UniquePtr, PtrCall, resetting, ptr_class}
use kk_proxy.Ssl.Pointers
use kk_proxy.Ssl.Pointers.Ownership.{pointer_total}
use kk_proxy.Stream.Ownership.{
  BaseStream, plain, tls, refused, close_calls, stream_class, stream_total,
}
use kk_proxy.Stream.Ownership
use kk_proxy.Tests.Sockets.{sys_close, sys_close-IsClose, socket_on}

-- A kernel that is the list of the bound descriptors: it binds one.
abbrev bind_once : ℤ → List ℤ → ℤ × List ℤ
bind_once fd [] = (pos 0, fd ∷ [])
bind_once fd (b ∷ bs) = (negsuc 0, b ∷ bs)

abbrev kernel : Calls (List ℤ)
kernel = record {
  sys_socket = λ k. (pos 4, k);
  setsockopt = λ fd k. (fd, k);
  sys_bind = λ fd a k. bind_once fd k;
  sys_listen = λ fd backlog k. (pos 0, k);
  errno = λ k. pos 98;
}

abbrev server : ServerSocket
server = record { ring = none; fd = pos 4; addr = address }

bind_in_use : (bind kernel 80 server (pos 9 ∷ [])).0 ≡ make_sys_error (negsuc 97)
unfolding bind
bind_in_use = refl

bind_lem_example :
    let (r, t, k') = bind kernel 80 server [] in
    let (opt, k₁) = kernel.setsockopt server.fd [] in
    let (ret, k₂) = kernel.sys_bind server.fd t.addr k₁ in
    ((is_negative opt ≡ true) × (r ≡ make_sys_error opt) × (t ≡ server) × (k' ≡ k₁))
    ⊎ ((is_negative opt ≡ false)
        × (take 8 t.addr.bytes ≡ 2 ∷ 0 ∷ (htons 80 ++ (0 ∷ 0 ∷ 0 ∷ 0 ∷ [])))
        × (t.addr.overrun ≡ server.addr.overrun)
        × (t.fd ≡ server.fd)
        × (k' ≡ k₂)
        × (r ≡ (if is_negative ret then make_sys_error (negate (kernel.errno k₂)) else ok tt)))
bind_lem_example = bind_lem kernel 80 server []

abbrev no_frames : Handles ℕ
no_frames = record {
  memory = record { frames = λ a. none; finished = [] };
  destroyed = [];
  taken = [];
}

-- The task of the frame 2 is moved, its handle is taken, and both objects are destroyed; the task of the
-- frame 3 is overwritten.
abbrev task_program : List (Step Task Call)
task_program =
    created (get_return_object 2)
    ∷ moved 0
    ∷ created (get_return_object 3)
    ∷ called taking 1
    ∷ assigned 2 0
    ∷ called destroying 0
    ∷ called destroying 1
    ∷ []

task_program_ends :
    let k = (steps task_class task_program ([], no_frames)).1 in
    (k.destroyed ≡ 3 ∷ []) × (k.taken ≡ 2 ∷ [])
unfolding steps
task_program_ends = (refl, refl)

handle_total_example :
    total (held 2) (given_up 2) (steps task_class task_program ([], no_frames)) ≤ 1
handle_total_example = handle_total 2 task_program ([], no_frames)

-- The next free name, the BIOs of each SSL object, and the BIOs that were freed.
record Heap : Type 0 where
  next : ℕ
  owned : ℕ → Option (ℕ × ℕ)
  given_back : List ℕ

abbrev free_owned : Option (ℕ × ℕ) → List ℕ → List ℕ
free_owned none bs = bs
free_owned (some (r, w)) bs = r ∷ w ∷ bs

abbrev alloc : Alloc Heap
alloc = record {
  ssl_new = λ ctx k. (some k.next, record k { next = k.next + 1 });
  bio_new = λ k. (some k.next, record k { next = k.next + 1 });
  set_bio = λ s r w k. record k { owned = λ t. if t == s then some (r, w) else k.owned t };
  ssl_free = λ s k. record k { given_back = free_owned (k.owned s) k.given_back };
  bio_free = λ b k. record k { given_back = b ∷ k.given_back };
}

owned_same : (s r w : ℕ) (k : Heap) → (alloc.set_bio s r w k).owned s ≡ some (r, w)
owned_same s r w k = ground arith

abbrev alloc-IsAlloc : IsAlloc alloc
alloc-IsAlloc = record {
  freed = λ k. k.given_back;
  bios = λ k. k.owned;
  freed-ssl_new = λ ctx k. refl;
  freed-bio_new = λ k. refl;
  freed-set_bio = λ s r w k. refl;
  bios-set_bio = owned_same;
  freed-ssl_free = λ s r w k h. rw (h) refl;
  freed-bio_free = λ b k. refl;
}

abbrev empty_heap : Heap
empty_heap = record { next = 1; owned = λ s. none; given_back = [] }

abbrev first_engine : SslEngine
first_engine = record { ssl = some 1; read_bio = some 2; write_bio = some 3 }

abbrev moved_engine : SslEngine
moved_engine = record { ssl = none; read_bio = none; write_bio = none }

engine_frees_example :
    let k = (ssl_engine alloc 7 empty_heap).1 in
    (r w : ℕ) × (first_engine.read_bio ≡ some r)
    × (first_engine.write_bio ≡ some w)
    × ((destroy alloc first_engine k).1.given_back ≡ r ∷ w ∷ [])
    × ((move_assign alloc first_engine moved_engine k).2.given_back ≡ w ∷ r ∷ r ∷ w ∷ [])
unfolding ssl_engine
engine_frees_example = engine_frees alloc alloc-IsAlloc 7 empty_heap first_engine moved_engine refl

-- A TLS stream over the descriptor 5 is moved, the new one overwrites a plain stream over 6, and all are
-- destroyed.
abbrev stream_program : List (Step (BaseStream ℕ) Socket.Call)
stream_program =
    created (tls (record { raw_stream = socket_on 5; ssl_engine = first_engine; leftover = [] }))
    ∷ created (plain (socket_on 6))
    ∷ moved 0
    ∷ assigned 1 2
    ∷ called Socket.destroying 0
    ∷ called Socket.destroying 1
    ∷ called Socket.destroying 2
    ∷ []

stream_total_example :
    let st' = steps (stream_class sys_close alloc) stream_program ([], ([], empty_heap)) in
    total (Ownership.held sys_close alloc sys_close-IsClose 5) (close_calls sys_close-IsClose 5) st'
      + 0
    ≤ 1 + refused sys_close-IsClose 5 st'.1
stream_total_example =
    stream_total sys_close alloc sys_close-IsClose 5 stream_program ([], ([], empty_heap))

abbrev no_freeings : Pointers.Heap
no_freeings = record { freeings = []; given = [] }

-- Two pointers to SSL objects: the first is moved and then assigned over the second.
abbrev ptr_program : List (Step UniquePtr PtrCall)
ptr_program =
    created (record { get = some 5 })
    ∷ moved 0
    ∷ created (record { get = some 6 })
    ∷ assigned 2 1
    ∷ called Pointers.destroying 0
    ∷ called Pointers.destroying 1
    ∷ called resetting 2
    ∷ []

ptr_program_ends :
    (steps (ptr_class ssl) ptr_program ([], no_freeings)).1.freeings ≡ ssl_free 5 ∷ ssl_free 6 ∷ []
unfolding steps
ptr_program_ends = refl

pointers_kept :
    total
      (Pointers.Ownership.held ssl 5)
      (Pointers.Ownership.given_up ssl 5)
      (steps (ptr_class ssl) ptr_program ([], no_freeings))
    ≤ 1
pointers_kept = pointer_total ssl 5 ptr_program ([], no_freeings)
