-- ===== src/P2p.antt =====
-- The peer-to-peer file transfer: Final Project/p2p.c.
pub mod Sender
pub mod Split
pub mod Share
pub mod Mesh
pub mod Storage
pub mod Stream
pub mod Threads
pub mod Connecting
pub mod Display
pub mod Options
pub mod Session
use network_camp.Prelude.{ℕ, List}

-- `file_info_t`
pub record FileInfo : Type 0 where
  pub file_name : List ℕ
  pub total_file_size : ℕ
  pub segment_count : ℕ
  pub segment_size : ℕ
  pub max_receiver_cnt : ℕ

-- `segment_t`; `segment` is the array of `sement_size` bytes that it points to.
pub record Segment : Type 0 where
  pub nth_segment : ℕ
  pub segment : List ℕ

-- `receiver_t`, of `receiver_adr` the address and the port.
pub record Receiver : Type 0 where
  pub nth_receiver : ℕ
  pub segment_from_receiver_cnt : ℕ
  pub address : ℕ
  pub port : ℕ
