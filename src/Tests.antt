-- ===== src/Tests.antt =====
-- Concrete inputs on which the theorems of the library apply.
mod Toy
mod Challenges
mod Protocol
mod Flows
mod Proofs
mod Served
mod Sound
mod Runner
mod History
mod Slots
mod Mutations
mod Trees
mod Requests
