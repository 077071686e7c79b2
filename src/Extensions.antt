-- ===== src/Extensions.antt =====
-- pkg/internal/extensions: percent-encoding.
pub mod Escape
mod Tests
