-- ===== src/Lib.antt =====
-- kal-zk: zero-knowledge authentication over a sparse Merkle tree of credentials in Postgres.
--
-- zkauthn keeps the tree of membership credentials, issues and revokes leaves, hands out paths and
-- verifies proofs; zkauthz keeps the claims that one request has proven. The database is shared
-- state: every operation of zkauthn is a sequence of SQL statements, mostly in one transaction.
--
-- Base      names of the libraries, tests on numbers, byte strings, their big-endian value.
-- Error     kalerr codes, database errors and their classification (zkauthn/service.go).
-- Hash      zkauthn/hash.go. A `Field` is the number that its 32 bytes spell. gnark-crypto is the
--           record `Crypto`, and what the code relies on is `Lawful`: the modulus lies between
--           2 ^ 248 and 2 ^ 256, reduction and MiMC yield canonical elements, and canonical blocks
--           are accepted. No theorem assumes that MiMC has no collisions: where one matters, it is
--           a case of the conclusion (`Proof.Walk.Breaks`).
-- Store     the tables and the statements of zkauthn/sql.go; Store.Exec runs statements one after
--           another, each behind an event of a schedule: the connection fails, or another
--           transaction commits. An empty schedule is a connection that works and is alone, which
--           is what the advisory lock of the tree gives its writers. How Postgres reads a text as a
--           uuid is the parameter `Uuid` of the statement that compares one (22P02 when it cannot).
-- Service   `New`, its options and its checks (zkauthn/service.go). `Service.Slots` has the calls of
--           `verify` that are at work at the same time, as steps in any order: those of the code
--           (`Work`), the expiry of a wait and the answer of gnark (`Change`). The semaphore of
--           golang.org/x/sync is the record `Weighted`, and what the code relies on `LawfulWeighted`.
-- Tree      zkauthn/tree.go: `Tree` has the operations, `Tree.Shape` the tree as a function of its
--           leaves, and the modules below `Tree` the proofs that the operations keep to it.
--           `Tree.History` is the relation of the states that a tree went through, which a stored
--           root and its retirement are explained by.
-- Proof     the oracles of zkauthn/proof.go, what the tree's operations give them, and, in
--           `Proof.Binding`, what a witness that they accept must be.
-- Circuit   zkauthn/circuits.go: each `Define` as the list of constraints that it makes. gnark's
--           gadgets are the record `Gadgets`, and what the code relies on is `LawfulGadgets`.
--           `Circuit.Binding` is what values that meet the constraints must be.
-- Keys      zkauthn/keys.go: the pins of the circuits, the ceremony and the loading of keys. gnark and
--           SHA-256 are the record `Groth16`, and a key is the bytes that it is written as.
-- Proving   the prover and the verifier of zkauthn/proof.go. gnark's prover is the record `Prover`, and
--           `CompleteGroth16` says that Groth16 is complete. That it is sound, with an extractor, is
--           `SoundGroth16` of Protocol.Membership.Sound, which that module and Protocol.Membership.Recent
--           assume.
-- Mutation  internal/cmd/zktestmutate/main.go: the validation of a manifest and a mutation on its
--           snapshots; `Mutation.Snapshot` has copyTree on trees of entries, and `Mutation.Runner`
--           main and the named test. The file system, JSON and the go command are parameters, or the
--           record `Machine`.
-- Challenge challenges of zkauthn/hash.go and zkauthn/protocol.go; SHA-256 and base64 are `Tokens`.
-- Protocol  zkauthn/protocol.go. `Protocol.Interface` is what comes from outside: kal's sessions,
--           hasher and authorization, gnark, ids of the server. `Protocol.Checking` has the phases
--           that only read, `Protocol.Knowledge` the second factor, and `Protocol.Membership` logins
--           and claims.
-- Authz     zkauthz/zkauthz.go: the holder of a request as a value, and each call as one step.
--
-- Loops run over lists or over the number of levels that are left, so no fuel is needed: the depth
-- is 32, an attempt is one of 2 or 3. Integers are natural numbers; the leaf index is checked
-- against 2 ^ 32 - 1 as in the code. A timestamp is a number, and a length of time is in its unit.
-- The constraints of the tables are in another repository; a refusal by one is the parameter
-- `Verdict` or `Refusal` where the code classifies it, and a failure of the schedule
-- elsewhere. Wrapping an error keeps what errors.Is and errors.As see, so it is the identity.
--
-- Not modelled: gnark itself (the compiled constraint systems and the proofs are what it returns),
-- the texts of the SQL statements (a statement is its function on the tables), the setters of
-- zkauthn/audit_hooks.go, which are for tests, and of the mutation runner the parsing of the command
-- line, the failures of the destination of a copy, the durations, and the texts of errors.
pub mod Base
pub mod Error
pub mod Hash
pub mod Store
pub mod Service
pub mod Tree
pub mod Proof
pub mod Challenge
pub mod Protocol
pub mod Circuit
pub mod Keys
pub mod Proving
pub mod Mutation
pub mod Authz
mod Tests
