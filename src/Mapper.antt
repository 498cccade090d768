-- ===== src/Mapper.antt =====
-- The mappers: lib/inc/nes_mapper.h, lib/src/mappers and lib/src/nes_mapper_mmc3.cpp.
pub mod Info
pub mod Nrom
pub mod Mmc1
pub mod Mmc3
pub mod Loader
pub mod Files
pub mod Serial
pub mod Steady
pub mod Fits
pub mod Windows
