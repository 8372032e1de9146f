-- ===== src/Buff.antt =====
-- The buffers of libutil/inc/AdBuff.h.
pub mod Ring
pub mod LoopRead
pub mod PingPong
mod Tests
