-- ===== src/Tests.antt =====
-- The theorems at concrete inputs, with small tests of the definitions.
mod Trie
mod Search
mod StopWait
mod P2p
mod Peers
mod Threads
mod Transfer
mod Connecting
mod Display
mod Options
mod SearchClient
mod Accept
mod Rounds
mod Download
mod Lab
mod Shell
