-- ===== src/Feishu.antt =====
-- internal/feishu: the codec of the long connection's frames, the reassembly of a frame that
-- comes in parts, and the memory of the events that were handled.
pub mod Frame
pub mod Codec
pub mod Fragment
pub mod Dedupe
