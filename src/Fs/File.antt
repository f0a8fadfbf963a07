-- ===== src/Fs/File.antt =====
-- `file` of kkp/kkp-core/include/kkp/fs/file.hpp: who owns its descriptor.
pub mod Ownership
pub mod Io
use kk_proxy.Common.{ℕ, Option, none, ℤ, pos, is_positive, eq_ℤ, if◌then◌else◌}
use kk_proxy.Descriptors.{Close}
use kk_proxy.Objects.{Class}

pub record File : Type 0 where
  pub fd : ℤ
  pub ring : Option ℕ
  pub state_flag : ℤ

-- The constructor, with what `open` returned: -1 stays in the object when it failed.
abbrev pub file : Option ℕ → ℤ → File
file ring opened = record { fd = opened; ring = ring; state_flag = pos 0 }

-- The move constructor: the new object, and what is left of the other. Here 0 stands for no file.
abbrev pub move_construct : File → File × File
move_construct other = (other, record { fd = pos 0; ring = none; state_flag = pos 0 })

module _ {K : Type 0} (sys_close : Close K) where
  -- The move assignment of another object: it leaves the other its `state_flag_`.
  unfoldable pub move_assign : File → File → K → File × File × K
  move_assign this other k =
      let k' : K = if is_positive this.fd then (sys_close this.fd k).1 else k in
      (other, record other { fd = pos 0; ring = none }, k')

  -- ~file: every descriptor but 0 is closed, -1 too.
  unfoldable pub destroy : File → K → K
  destroy this k = if eq_ℤ this.fd (pos 0) then k else (sys_close this.fd k).1

  -- The place of a destroyed file holds no file.
  abbrev pub destroyed : File → K → File × K
  destroyed this k = (record this { fd = pos 0 }, destroy this k)

  abbrev pub file_class : Class File K (Unit {0})
  file_class = record {
    move = move_construct;
    assign = move_assign;
    call = λ x this k. destroyed this k;
  }
