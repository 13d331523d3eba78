-- ===== src/Api.antt =====
-- SiDaqApi/SiDaqApi.cpp and SiDaqApi.h: the exported functions over one manager.
pub mod State
pub mod Errors
pub mod Control
pub mod FramerThread
pub mod Access
pub mod Registers
pub mod Lifecycle
pub mod Cleanup
pub mod Starts
pub mod Sound
pub mod Gets
