-- ===== src/Tests/Kernels.antt =====
-- A kernel that sends all, and that gives one byte, 7, to each `recv` and `read` that has room, and runs
-- of kkp/kkp-core/include/kkp/net/socket.hpp, kkp/kkp-core/include/kkp/fs/file.hpp and `delay` on it.
use kk_proxy.Common.{
  ℕ, zero, suc, ◌<◌, ◌+◌, ◌≤◌, ◌≡◌, refl, ap, ◌↔◌, ◌⊎◌, true, false, Option, none, some, List, [],
  ◌∷◌, ◌++◌, arith, ℤ, pos, negsuc, pos_part, is_positive, ◌==◌, if◌then◌else◌, take,
}
use kk_proxy.ErrorCode.{ok}
use kk_proxy.Uring.Request.{
  Request, prep_read, prep_recv, prep_send, prep_timeout, prep_write, Span,
}
use kk_proxy.Uring.Awaiter.{Ring}
use kk_proxy.Uring.Kernel.{Memory, bytes, IsOutside, Kernel, IsDocumented, World, co_await}
use kk_proxy.Net.Socket.{Socket, opened}
use kk_proxy.Net.Socket.Io
use kk_proxy.Fs.File.{File, file}
use kk_proxy.Fs.File.Io as FileIo
use kk_proxy.OverUring.Bounds.{IsWithin, IsLength, io-IsWithin}
use kk_proxy.OverUring.Confined.{IsConfined, value_part, io-IsConfined}
use kk_proxy.OverUring.RawSocket.{Calls, raw_socket}
use kk_proxy.Uring.Awaiter.Kinds
use kk_proxy.Ssl.RawStream.{RawStream}
use kk_proxy.OverUring.Tls.{IsSent, IsSentFront, session_delivers}
use kk_proxy.Ssl.Run.{exit, Ends}
use kk_proxy.Ssl.Stream.{SslStream}
use kk_proxy.Ssl.Stream.Send.{send}
use kk_proxy.Ssl.Stream.Handshake.{handshake}
use kk_proxy.Ssl.Engine.{perform}
use kk_proxy.Ssl.Status.{client}
use kk_proxy.Uring.Loop.{etime}
use kk_proxy.Uring.Awaiter.Laws.{sys_error}
use kk_proxy.Utils.Delay.{Timespec, is_valid}
use kk_proxy.Utils.Delay.Await.{Timers, Clock, IsClock, nanoseconds, delay, delay_lem}
use kk_proxy.Tests.Toy.{fresh, null_cipher, null_cipher-IsDocumented}

-- One byte is written when there is room.
abbrev give : (buf n : ℕ) → Memory → ℤ × Memory
give buf zero m = (pos 0, m)
give buf (suc n) m = (pos 1, λ a. if a == buf then 7 else m a)

abbrev answer : Request → Memory → List ℕ → ℤ × Memory × List ℕ
answer (prep_send fd buf len flags) m k = (pos len, m, k ++ bytes m buf len)
answer (prep_recv fd buf len flags) m k = let (r, m') = give buf len m in (r, m', k)
answer (prep_read fd buf n off) m k = let (r, m') = give buf n m in (r, m', k)
answer (prep_write fd buf n off) m k = (pos n, m, k)
answer _ m k = (pos 0, m, k)

abbrev kernel : Kernel (List ℕ)
kernel = record { perform = answer }

give-count : (buf n : ℕ) (m : Memory) → pos_part (give buf n m).0 ≤ n
give-count buf zero m = omega arith
give-count buf (suc n) m = omega arith

give-memory : (buf n : ℕ) (m : Memory) (a : ℕ) → IsOutside buf n a → (give buf n m).1 a ≡ m a
give-memory buf zero m a o = refl
give-memory buf (suc n) m a o = ground arith

take_bytes : (m : Memory) (n buf : ℕ) → bytes m buf n ≡ take n (bytes m buf n)
take_bytes m zero buf = refl
take_bytes m (suc n) buf = ap (λ xs. m buf ∷ xs) (take_bytes m n (suc buf))

abbrev kernel-IsDocumented : IsDocumented kernel
kernel-IsDocumented = record {
  sent = λ fd k. k;
  send-count = λ fd buf len flags m k. omega arith;
  send-memory = λ fd buf len flags m k a. refl;
  sent-send = λ fd buf len flags m k. ap (λ xs. k ++ xs) (take_bytes m len buf);
  recv-count = λ fd buf len flags m k. give-count buf len m;
  recv-memory = λ fd buf len flags m k a o. give-memory buf len m a o;
  sent-recv = λ fd buf len flags m k. refl;
  read-count = λ fd buf n off m k. give-count buf n m;
  read-memory = λ fd buf n off m k a o. give-memory buf n m a o;
  write-count = λ fd buf n off m k. omega arith;
  write-memory = λ fd buf n off m k a. refl;
}

-- The number of free entries, and of those that were submitted.
abbrev free_entries : Ring ℕ (ℕ × ℕ)
free_entries = record {
  get_sqe = λ (free, done). elim free [ zero ↦ (none, (0, done)) | suc n ↦ (some n, (n, done)) ];
  set_data = λ q ring. ring;
  prepare = λ f q ring. ring;
  submit = λ (free, done). (free, done + 1);
}

abbrev three : Span
three = record { data_ptr = 100; size = 3 }

abbrev sock : Socket ℕ
sock = opened none (pos 5) 0

abbrev a_file : File
a_file = file none (pos 6)

-- A length of 5 in a buffer of 3.
io-IsWithin_example :
    IsWithin three (Io.send {Sqe = ℕ} three (pos 0) sock).request
    × IsWithin three (Io.recv {Sqe = ℕ} three (pos 0) sock).request
    × IsWithin three (FileIo.read_all {Sqe = ℕ} three a_file).request
    × (IsWithin three (FileIo.read {Sqe = ℕ} three (pos 5) (pos 0) a_file).request
        ↔ IsLength (pos 5) 3)
    × (IsWithin three (FileIo.write {Sqe = ℕ} three (pos 5) (pos 0) a_file).request
        ↔ IsLength (pos 5) 3)
io-IsWithin_example =
    io-IsWithin ℕ three sock a_file (pos 0) (pos 5) (pos 0) (omega arith) (omega arith)

abbrev world : World (ℕ × ℕ) (List ℕ)
world = record { ring = (20, 0); memory = λ a. 0; kernel = [] }

io-IsConfined_example :
    IsConfined pos_part three world
      (co_await free_entries kernel 9 (Io.send three (pos 0) sock) world)
    × IsConfined pos_part three world
        (co_await free_entries kernel 9 (Io.recv three (pos 0) sock) world)
    × IsConfined value_part three world
        (co_await free_entries kernel 9 (FileIo.read_all three a_file) world)
    × IsConfined value_part three world
        (co_await free_entries kernel 9 (FileIo.read three (pos 2) (pos 0) a_file) world)
    × IsConfined pos_part three world
        (co_await free_entries kernel 9 (FileIo.write three (pos 2) (pos 0) a_file) world)
io-IsConfined_example =
    io-IsConfined free_entries kernel kernel-IsDocumented 9 three world sock a_file (pos 0) (pos 2)
      (pos 0) (omega arith)

abbrev calls : Calls (List ℕ)
calls = record { getsockopt = λ k fd. (pos 0, pos 0); sys_close = λ fd k. (pos 0, k) }

abbrev under : RawStream
under = raw_socket ℕ free_entries kernel calls 9 100

abbrev connected : SslStream null_cipher under
connected = record {
  raw = record { sock = sock; world = world };
  engine = fresh;
  leftover = [];
  capacity = 0;
}

-- The greeting is sent from the buffer, which is at 100.
abbrev greeted : SslStream null_cipher under
greeted = record connected {
  raw = record connected.raw {
    world = record { ring = (19, 1); memory = λ a. if a == 100 then 22 else 0; kernel = 22 ∷ [] };
  };
  engine = record fresh { produced = 22 ∷ []; greeted = true };
}

handshake_greets : handshake null_cipher under 2 2 client connected ≡ exit (ok tt) greeted
unfolding handshake perform co_await Io.send Kinds.send
handshake_greets = refl

session_delivers_example :
    Ends
      (λ _. ⊥)
      (λ n u.
        IsSent null_cipher null_cipher-IsDocumented ℕ free_entries kernel kernel-IsDocumented calls
          9 100
          (1 ∷ 2 ∷ 3 ∷ [])
          connected
          greeted
          u
          n
        ⊎ ((is_positive n ≡ false)
            × IsSentFront null_cipher null_cipher-IsDocumented ℕ free_entries kernel
                kernel-IsDocumented calls 9 100 connected u))
      (λ u.
        IsSentFront null_cipher null_cipher-IsDocumented ℕ free_entries kernel kernel-IsDocumented
          calls 9 100 connected u)
      (send null_cipher under (pos 0) (1 ∷ 2 ∷ 3 ∷ []) greeted)
session_delivers_example =
    session_delivers null_cipher null_cipher-IsDocumented ℕ free_entries kernel kernel-IsDocumented
      calls 9 100 2 2 client (pos 0) (1 ∷ 2 ∷ 3 ∷ []) connected greeted (omega arith) (omega arith)
      refl refl handshake_greets

-- A clock in nanoseconds, which a valid timeout moves on by its time.
abbrev timed : Option Timespec → ℕ → ℤ × ℕ
timed none k = (negsuc 13, k)
timed (some t) k = if is_valid t then (etime, k + nanoseconds t) else (negsuc 21, k)

abbrev expire : Request → Timers → ℕ → ℤ × ℕ
expire (prep_timeout ts count flags) m k = timed (m ts) k
expire _ m k = (negsuc 21, k)

abbrev clock : Clock ℕ
clock = record { expire = expire }

expires :
    (ts : ℕ) (m : Timers) (t : Timespec) (k : ℕ)
    → m ts ≡ some t
    → is_valid t ≡ true
    → pos_part t.tv_nsec < 1000000000
    → let (r, k') = clock.expire (prep_timeout ts 0 32) m k in
      (r ≡ etime) × (k + nanoseconds t ≤ k')
expires ts m t k e v small = rw e (rw v (refl, omega arith))

refuses :
    (ts : ℕ) (m : Timers) (t : Timespec) (k : ℕ)
    → m ts ≡ some t
    → is_valid t ≡ false
    → (clock.expire (prep_timeout ts 0 32) m k).0 ≡ negsuc 21
refuses ts m t k e v = rw e (rw v refl)

abbrev clock-IsClock : IsClock clock
clock-IsClock = record { now = λ k. k; expire-valid = expires; expire-refused = refuses }

delay_lem_example :
    let (t, ring', k') = delay free_entries clock 9 200 (pos 1500) (20, 0) 5 in
    (((free_entries.get_sqe (20, 0)).0 ≡ none) × (t ≡ sys_error (pos 10086)) × (k' ≡ 5))
    ⊎ ((false ≡ false) × (t ≡ ok tt) × (1500000005 ≤ k'))
    ⊎ ((false ≡ true) × (t ≡ sys_error (pos 22)))
delay_lem_example = delay_lem free_entries clock 9 200 clock-IsClock (pos 1500) (20, 0) 5
