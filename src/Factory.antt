-- ===== src/Factory.antt =====
-- server/CPPImpl/Factory.h and Factory.cpp: `ItemInfo` has the providers of one item, `Stock` the
-- index of all items, `Demand` the recipes and their demands, `Reserving` the reservations for a
-- recipe, and `Bus` the allocation of the slots of the bus inventory.
pub mod ItemInfo
pub mod Stock
pub mod Demand
pub mod Reserving
pub mod Bus
