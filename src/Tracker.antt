-- ===== src/Tracker.antt =====
-- packages/websocket-tracker/src/peer.ts and swarm.ts: the connections and the swarms of the tracker.
pub mod Peer
pub mod Swarm
pub mod Sets
pub mod Laws
pub mod Bounds
pub mod Closes
pub mod Connections
mod Tests
