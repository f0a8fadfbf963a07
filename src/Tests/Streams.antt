-- ===== src/Tests/Streams.antt =====
-- Runs of kkp/kkp-core/include/kkp/stream.hpp and kkp/kkp-core/include/kkp/fs/file.hpp.
use kk_proxy.Common.{List, ◌≤◌, none, [], ◌∷◌, pos, arith}
use kk_proxy.Fs.File.{File, file, file_class}
use kk_proxy.Objects.{Step, created, assigned, called, steps}
use kk_proxy.Objects.Laws.{total}
use kk_proxy.Fs.File.Ownership.{held, file_total}
use kk_proxy.Descriptors.{closings}
use kk_proxy.Tests.Sockets.{sys_close, sys_close-IsClose}

abbrev five : File
five = file none (pos 5)

abbrev six : File
six = file none (pos 6)

-- 5 is moved over 6, and both are destroyed.
abbrev file_program : List (Step File (Unit {0}))
file_program = created five ∷ created six ∷ assigned 1 0 ∷ called tt 0 ∷ called tt 1 ∷ []

file_total_example :
    total
      (held sys_close sys_close-IsClose 5)
      (closings sys_close-IsClose 5)
      (steps (file_class sys_close) file_program ([], []))
    ≤ 1
file_total_example = file_total sys_close sys_close-IsClose 5 file_program ([], []) (omega arith)
