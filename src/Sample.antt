-- ===== src/Sample.antt =====
-- MfcSample/SiDaqMfcSampleDlg.cpp: a dialog that receives events by the library.
pub mod FrameLength
pub mod Packets
pub mod Controls
pub mod SitcpInfo
pub mod Dialog
pub mod FixedMode
