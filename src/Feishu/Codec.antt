-- ===== src/Feishu/Codec.antt =====
-- internal/feishu/codec.go: `Frame.Marshal`, `Frame.Unmarshal` and what they call.
pub mod Varint
pub mod Marshal
pub mod Unmarshal
pub mod Hang
pub mod Groups
pub mod Reading
pub mod Fields
pub mod RoundTrip
