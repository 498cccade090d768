-- ===== src/App.antt =====
-- The application around the library: src/neschan.cpp. What SDL returns is an argument.
pub mod Keys
pub mod Video
pub mod Frame
