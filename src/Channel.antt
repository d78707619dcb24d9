-- ===== src/Channel.antt =====
-- The notification settings of a destination, back/internal/channel.
pub mod Settings
