-- ===== src/Base.antt =====
-- play/base: the helpers that the other parts of the library stand on.
pub mod StringUtil
pub mod Snowflake
pub mod ObjectPool
