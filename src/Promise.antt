-- ===== src/Promise.antt =====
-- `Promise` of server/CPPImpl/Actions.h: `All` has the promise that waits for several, `Chain` the
-- chaining of promises.
pub mod All
pub mod Chain
