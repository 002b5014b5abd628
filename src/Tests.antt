-- ===== src/Tests.antt =====
-- The theorems at concrete inputs: tests/tst_vtparser.cpp and tests/tst_screen.cpp have the like.
mod Parser
mod Grid
mod Emulator
mod Sessions
mod Keys
mod Queue
mod Stores
