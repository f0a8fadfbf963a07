-- ===== src/Tests/Events.antt =====
-- Runs of kkp/kkp-core/include/kkp/uring/.
use kk_proxy.Common.{
  ◌⊎◌, sym, append-nil, ℕ, zero, suc, ◌+◌, ◌≡◌, refl, false, none, some, List, [], ◌∷◌, ◌++◌, map,
  ℤ, pos, negsuc,
}
use kk_proxy.Uring.Loop.{
  UserData, null, completed, io_data, Cqe, Wait, arrived, failed, Loop, run, etime,
}
use kk_proxy.Uring.Loop.Laws.{entry, log, resumptions}
use kk_proxy.Uring.Loop.Waits.{run_waits}
use kk_proxy.Uring.Request.{prep_connect}
use kk_proxy.Uring.Awaiter.{
  Ring, co_await_on, plain_resume, connect_resume, read_resume, socket_accept_resume,
  timeout_resume,
}
use kk_proxy.Uring.Awaiter.Laws.{sys_error, co_await_on_lem}
use kk_proxy.IoContext.{NopRing, IsNopRing, nop_done, finish}
use kk_proxy.IoContext.Laws.{finish_stops}

abbrev idle : Loop (List (ℕ × ℤ))
idle = record { running = false; results = λ _. pos 0; seen = 0; world = [] }

abbrev two_entries : List Cqe
two_entries = entry (io_data 4) (pos 12) ∷ entry (io_data 7) (negsuc 103) ∷ []

-- An entry, an interrupted wait that gives one, a timeout with one, a failure without, and the mark.
abbrev some_waits : List Wait
some_waits =
    arrived (entry (io_data 4) (pos 12))
    ∷ failed (negsuc 3) (some (entry (io_data 7) (pos 1)))
    ∷ failed etime (some (entry (io_data 9) (pos 2)))
    ∷ failed (negsuc 3) none
    ∷ []

abbrev after_waits : List Wait × Loop (List (ℕ × ℤ))
after_waits = run log (some_waits ++ (arrived (entry completed (pos 0)) ∷ [])) idle

run_waits_example :
    (after_waits.0 ≡ [])
    × (after_waits.1.running ≡ false)
    × (after_waits.1.world ≡ (4, pos 12) ∷ (7, negsuc 3) ∷ (9, pos 2) ∷ [])
    × (after_waits.1.seen ≡ 2)
run_waits_example =
    run_waits some_waits (arrived (entry completed (pos 0))) [] idle
      (refl, (refl, (refl, (tt, tt)))) refl

-- The number of free entries, and of those that were submitted.
abbrev counting : Ring ℕ (ℕ × ℕ)
counting = record {
  get_sqe = λ (free, done). elim free [ zero ↦ (none, (0, done)) | suc n ↦ (some n, (n, done)) ];
  set_data = λ q ring. ring;
  prepare = λ f q ring. ring;
  submit = λ (free, done). (free, done + 1);
}

-- The kernel refuses the entry with -111.
co_await_on_lem_example :
    let t = co_await_on counting (prep_connect (pos 3) 0 16) 5 (negsuc 110) (1, 2) in
    (((counting.get_sqe (1, 2)).0 ≡ none)
      × (t.1 ≡ (counting.get_sqe (1, 2)).1)
      × (plain_resume t.0 ≡ negsuc 10085)
      × (connect_resume t.0 ≡ sys_error (negsuc 10085))
      × (socket_accept_resume t.0 ≡ sys_error (negsuc 10085))
      × (read_resume t.0 ≡ sys_error (pos 10086))
      × (timeout_resume t.0 ≡ sys_error (pos 10086)))
    ⊎ ((q : ℕ) × ((counting.get_sqe (1, 2)).0 ≡ some q)
        × (t.1 ≡ (0, 3))
        × (plain_resume t.0 ≡ negsuc 110)
        × ((connect_resume t.0 ≡ sys_error (negsuc 110))
            × (socket_accept_resume t.0 ≡ sys_error (negsuc 110))
            × (read_resume t.0 ≡ sys_error (pos 111))))
co_await_on_lem_example = co_await_on_lem counting (prep_connect (pos 3) 0 16) 5 (negsuc 110) (1, 2)

-- A ring that is the list of what the waits will give, with the user data of the entry that was taken. A
-- NOP arrives last.
abbrev Nops : Type 0
Nops = List Wait × UserData

abbrev nop_ring : NopRing (Unit {0}) Nops
nop_ring = record {
  get_sqe = λ (ws, d). (some tt, (ws, null));
  set_data = λ q d (ws, _). (ws, d);
  prep_nop = λ q ring. ring;
  submit = λ (ws, d). (ws ++ (nop_done d ∷ []), null);
}

abbrev nop_ring-IsNopRing : IsNopRing nop_ring
nop_ring-IsNopRing = record {
  waits = λ (ws, d). ws;
  nop_arrives = λ (ws, _) q d h. (ws, [], sym (append-nil ws), refl);
}

finish_stops_example :
    (ring' : Nops) × (cs₁ cs₂ : List Cqe) × (finish nop_ring (map arrived two_entries, null)
      ≡ some ring')
    × (two_entries ≡ cs₁ ++ cs₂)
    × ((run log ring'.0 idle).0 ≡ map arrived cs₂)
    × ((run log ring'.0 idle).1.running ≡ false)
    × ((run log ring'.0 idle).1.world ≡ resumptions cs₁)
finish_stops_example =
    finish_stops nop_ring nop_ring-IsNopRing (map arrived two_entries, null) tt two_entries idle
      refl refl (refl, (refl, tt))
