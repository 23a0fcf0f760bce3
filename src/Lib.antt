-- ===== src/Lib.antt =====
-- The C++ server of OCRemote (server/CPPImpl), which runs a factory in a game: clients connect over
-- TCP and carry out actions on inventories, storages report the items they hold, and processes
-- reserve items and move them over a bus inventory.
--
-- The parts and how they interact:
-- * Serialize (server/CPPImpl/Serialize.h, Serialize.cpp): the wire format. Serialize/Value has the
--   values SKey, SValue and STable; Serialize/Table the operations of std::map; Serialize/Equality
--   the comparison, and Serialize/Same what it comes to; Serialize/Print `serialize`; Serialize/Deserialize the class Deserializer, whose
--   chain of states is a list of frames, and whose tail calls of `shift` and `reduce` are the rounds
--   of a loop over the bytes. Chunks, States and RoundTrip below it have the proofs.
--   Serialize/Arrays has arrayToSTable and sTableToArray, Serialize/Casts the casts of numbers.
-- * Item (server/CPPImpl/Item.h, Item.cpp): items, their equality and the filters. Item/Insert has
--   insertIntoInventory, with one function for each block of its loop; Count, Round, Invariant and
--   Outcome below it have the proofs. Item/Codec has Item::serialize and parseItemStack, with their
--   round trip below it.
-- * Action (server/CPPImpl/Actions.h, Actions.cpp): the actions, their `dump`, and what they make of
--   an answer. Literals has the texts in them.
-- * Promise/All (server/CPPImpl/Actions.h): the Context of Promise::all as a state that the settling
--   of each promise changes; All/Settles has the proofs. Promise/Chain has listen, map, mapTo, then
--   and finally on a store of promises, and what a promise does that is settled; Path, Ends and
--   Delivery below it have the proofs.
-- * Factory/ItemInfo (server/CPPImpl/Factory.h, Factory.cpp): the class ItemInfo with its priority
--   queue of providers, `addProvider`, `backup`, `getAvail` and `reserve`.
-- * Factory/Stock (the same files): items, nameMap and labelMap of Factory with getOrAddItemInfo,
--   getItem, getAvail, the backups of updateAndBackupItems and the clearing of endOfCycle.
--   Stock/Agree has the three containers in any orders. The storages fill it through getOrAddItemInfo and addProvider.
-- * Factory/Demand (server/CPPImpl/Factory.h): the recipes, resolveRecipeInputs and getDemand, with a
--   function for the body of each loop. Factory/Reserving (Factory.cpp, and the loops in
--   Processes.cpp): Factory::reserve for all inputs of a recipe.
-- * Factory/Bus (the same files): the bus of Factory with busAllocate, busFree, doBusUpdate and its
--   callbacks, and `start` with its listener, which start and end a cycle. Bus/Exclusive has it as a
--   system with steps in any order: processes, the answers of the client, failures, the start and
--   the end of a cycle;
--   Bus/Waiting has sequences of its calls.
-- * Server/Client (server/CPPImpl/Server.h, Server.cpp): the queues of a connection with
--   enqueueActionGroup, send, the callback of async_write, onPacket, updateTimer, countPending and
--   the destructor. Client/History has runs of these events.
-- * Server/Access (the same files): countPending and getBestAccess of Server.
-- * Server/Registry (the same files): the clients and the logins of Server with accept, onPacket and
--   updateLogin, removeClient, enqueueActionGroup and enqueueAction, and the events that call them;
--   Lookup, Consistent, Named, Agree, Settled and Conserved below it have the proofs.
-- * Storage/Chest (server/CPPImpl/Storages.h, Storages.cpp): sinkPriority and sink of StorageChest;
--   sink is modelled up to the action that it enqueues.
--   Storage/Insertion has the virtual calls for all kinds of storages, and Factory::insertItem.
--   Storage/Update has what `update` of the storages adds to the stock, and the actions of their
--   sink and extract.
-- * Process (server/CPPImpl/Processes.h, Processes.cpp): the cycles. Process/Reactor, Mixer and
--   Redstone have the processes that control a machine: what a cycle sends, and the state after the
--   answer. Process/Transfer has the moves between an inventory and the bus, Process/Slotted and
--   Process/Scattering the choice of what goes to which slot in these two processes,
--   Process/Inputless what goes out of which slot, Process/Buffered how many sets go into a buffer
--   (on as many rounds as there are sets, since each further round has one less), with the loops
--   of its cycle over the slots and the stock list in Buffered/Cycle, and over the demands in
--   Buffered/Recipes, Process/Crafting the robot and the workbench: Plan has the loop over the
--   demands, Robot and Workbench the actions.
--   Process/Job, Process/Single and Process/Crafting/Job have the promises of a transfer with
--   several bus slots, of one with one slot, and of a crafting job, one function for each callback;
--   Job/Frees and Single/Frees run them in any order.
-- * Base has the shared names, tests and integers; Examples has tests and the theorems at concrete
--   inputs.
--
-- Conventions. A call that changes an object takes its state and returns the new one, with what it
-- hands to others as a list of effects. `int` is the unbounded integer, since the code has no
-- wrap-around that it relies on and amounts of items stay far below 2 ^ 31; size_t is a number.
-- Exceptions are values: a Run of the deserializer that was thrown. `double` and its text are a
-- parameter, Doubles, with what the code relies on: the text has no `@`, reading the text of a
-- zero or a normal number gives the number back, equality is an equivalence and the order is
-- asymmetric, so that a NaN is not among the values. Strings are lists of byte values.
-- Casts, Arithmetic and Floats are further parameters: the casts between numbers, which give back
-- the integers that are exact, the operations on doubles, of which nothing is assumed, and the
-- fullness of a demand. The callbacks of promises, what is left of a text that was moved from, and
-- for which packets onResult of an action throws are parameters too. An access that a function
-- takes is what getBestAccess returns there. The texts that are only logged are left out. std::sort
-- keeps the order of what is equal.
-- std::priority_queue is the list of its elements, the top first. The unordered maps are lists of
-- their entries, of which a new one comes last: the orders in which the source goes through items,
-- nameMap and labelMap are not specified and have nothing to do with each other, so that which of
-- several items with as much available getItem returns is left open. On the bus, the stacks that the
-- client lists have at least one item each.
--
-- Fuel: the loop of ItemInfo::reserve runs on two rounds more than there are providers. Each round
-- takes the top provider off the queue or is the last, so that no more are needed.
-- Factory::insertItem runs on one round more than there are items, since each round takes one at
-- least. A chain of promises is settled on more fuel than it has listeners. The loop of the
-- scattering process runs on demand.inAvail, which each round takes one off.
--
-- Not modelled: the sockets, timers and the event loop, which are the platform's; the
-- accesses that StorageME keeps over a cycle (Storages.cpp); the cycles of the
-- processes as a whole, which put the parts together (Processes.cpp); the deferred
-- callbacks of WeakCallback.h, which the server does not use; a packet that follows in one chunk
-- after the packet for which its client was removed (Server.cpp); Entry.cpp, the
-- configuration of one factory; the Lua clients and the Rust implementation.
pub mod Base
pub mod Serialize
pub mod Item
pub mod Examples
pub mod Factory
pub mod Literals
pub mod Promise
pub mod Action
pub mod Process
pub mod Server
pub mod Storage
