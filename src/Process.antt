-- ===== src/Process.antt =====
-- server/CPPImpl/Processes.h and Processes.cpp: the processes of a factory. A cycle is split where
-- it waits for an answer or for a bus slot: each part is a function of what has arrived. What a
-- part is given as an access is the one that Server::getBestAccess returns there. The texts of the
-- log lines are left out.
pub mod Reply
pub mod Reactor
pub mod Job
pub mod Crafting
pub mod Mixer
pub mod Redstone
pub mod Transfer
pub mod Slotted
pub mod Buffered
pub mod Inputless
pub mod Single
pub mod Scattering
