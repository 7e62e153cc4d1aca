-- ===== src/Agentd.antt =====
-- agentd, the daemon that runs agents on a node.
pub mod EventBuf
pub mod Tmux
pub mod Permission
pub mod Provider
pub mod Agent
pub mod State
pub mod Store
pub mod Hub
pub mod Handler
pub mod Interactive
pub mod Stream
pub mod Scanner
pub mod Attach
pub mod Cleanup
pub mod Watched
mod Tests
