-- ===== src/Utils.antt =====
-- `delay` of kkp/kkp-core/include/kkp/utils.hpp and `to_hex_string` of
-- kkp/kkp-core/src/kkp-core.cpp.
pub mod Delay
pub mod Hex
pub mod Defer
