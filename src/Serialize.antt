-- ===== src/Serialize.antt =====
-- server/CPPImpl/Serialize.h and Serialize.cpp: the wire format between the server and its
-- clients. `Value` has the values, `Table` the ordered map, `Equality` the comparison with `Same`, `Print` the
-- serializer and `Deserialize` the resumable parser with its stack of states; `Arrays` has lists as
-- tables, and `Casts` the casts of numbers.
pub mod Value
pub mod Table
pub mod WellFormed
pub mod Equality
pub mod Same
pub mod Print
pub mod Deserialize
pub mod Casts
pub mod Arrays
