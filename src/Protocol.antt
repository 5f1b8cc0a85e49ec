-- ===== src/Protocol.antt =====
-- zkauthn/protocol.go, the verification of proof.go and service.go behind it, and the claim
-- policies of tree.go. What is not in the repository is the record `Outside`: kal's sessions,
-- password hashing, authorization context and cookies, Groth16, and the ids that the server makes.
pub mod Interface
pub mod Checking
pub mod Policies
pub mod Reading
pub mod Running
pub mod Overload
pub mod Knowledge
pub mod Membership
