-- ===== src/Terminal.antt =====
-- The emulator of src/terminal/Terminal.hpp and src/terminal/Terminal.cpp, by parts: Sgr has the
-- rendition codes (`applySgr`), Modes the state, the buffers and the saved cursors, SetMode the
-- modes, Print the handlers of characters, controls and escape sequences, Csi and Osc those of
-- control sequences and of commands, Receive the emulator with its parser. The others are proofs.
pub mod Sgr
pub mod Rendition
pub mod Modes
pub mod SetMode
pub mod Valid
pub mod Print
pub mod Handlers
pub mod Csi
pub mod Dispatch
pub mod Osc
pub mod Title
pub mod Receive
pub mod Stream
pub mod Sessions
pub mod Reports
pub mod Buffers
