-- ===== src/Tests/Core.antt =====
-- Runs of kkp/kkp-core/include/kkp/error_code.hpp and kkp/kkp-core/include/kkp/coro/coro_base.hpp.
use kk_proxy.Common.{◌/◌, ◌≡◌, refl, true, false, arith, negsuc}
use kk_proxy.ErrorCode.{message, bytes, e_task_cancel}
use kk_proxy.ErrorCode.Laws.{message_injective}
use kk_proxy.Coro.Flag.{is_daemon, set_daemon, is_sub_job, set_sub_job}
use kk_proxy.Coro.Flag.Laws.{flag_setters}

message_negative : message (negsuc 41) ≡ bytes "Unknown error code: -42"
unfolding message
message_negative = refl

message_cancel : message e_task_cancel ≡ bytes "Task cancel"
unfolding message
message_cancel = refl

same_code : negsuc 41 ≡ negsuc 41
same_code = message_injective (negsuc 41) (negsuc 41) refl

flag_setters_example :
    ((is_daemon (set_daemon 9 false) ≡ false)
      × (set_daemon 9 false / 2 ≡ 9 / 2)
      × (is_sub_job (set_daemon 9 false) ≡ is_sub_job 9))
    × ((is_sub_job (set_sub_job 9 true) ≡ true)
        × (is_daemon (set_sub_job 9 true) ≡ is_daemon 9)
        × (set_sub_job 9 true / 4 ≡ 9 / 4))
    × ((is_sub_job (set_sub_job 9 false) ≡ is_sub_job 9)
        × (is_daemon (set_sub_job 9 false) ≡ false)
        × (set_sub_job 9 false / 4 ≡ 0))
flag_setters_example = flag_setters 9 false (omega arith)
