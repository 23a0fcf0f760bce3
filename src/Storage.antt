-- ===== src/Storage.antt =====
-- server/CPPImpl/Storages.h and Storages.cpp: the storages of a factory.
pub mod Chest
pub mod Insertion
pub mod Update
