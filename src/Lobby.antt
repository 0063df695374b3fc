-- ===== src/Lobby.antt =====
-- internal/lobby: the player object and the handlers that change it.
pub mod Bag
pub mod Gacha
pub mod Spin
pub mod Payout
pub mod Shard
pub mod Transfer
pub mod Battle
