-- ===== src/Store.antt =====
-- The tables that zkauthn/sql.go reads and writes: auth_zk_* and the columns of auth_users that it
-- names. A row is a record, a table a list of rows in no significant order, a nullable column an
-- `Option`, bytea and text are byte strings, and a timestamp is a number.
pub mod Exec
pub mod Nodes
pub mod Roots
pub mod Credentials
pub mod Challenges
pub mod Claims
pub mod Nullifiers
pub mod Users
pub mod Rollback
pub mod Reading
pub mod Ending
pub mod Failing
use kal_zk.Base.{ℕ, Bool, true, false, Bytes, List, Option, codes}

pub data Purpose : Type 0 where
  knowledge login claiming : Purpose

abbrev pub purpose_eq : Purpose → Purpose → Bool
purpose_eq knowledge knowledge = true
purpose_eq login login = true
purpose_eq claiming claiming = true
purpose_eq _ _ = false

-- `ClaimKind` is a string in Go, so a stored row may hold neither constant.
pub data ClaimKind : Type 0 where
  recurring one_shot : ClaimKind
  unknown_kind : Bytes → ClaimKind

pub record ChallengeRow : Type 0 where
  pub challenge : Bytes
  pub session_id : Option Bytes
  pub purpose : Purpose
  pub field : Bytes
  pub expires_at : ℕ
  pub consumed_at : Option ℕ

pub record CommitmentRow : Type 0 where
  pub user_id : Bytes
  pub commitment : Bytes

pub record CredentialRow : Type 0 where
  pub leaf_index : ℕ
  pub commitment : Bytes
  pub issued_to : Option Bytes
  pub revoked_at : Option ℕ

pub record NodeRow : Type 0 where
  pub level : ℕ
  pub idx : ℕ
  pub hash : Bytes

pub record RootRow : Type 0 where
  pub root : Bytes
  pub retired_at : Option ℕ

pub record ClaimRow : Type 0 where
  pub name : Bytes
  pub audience : Bytes
  pub threshold : ℕ
  pub kind : ClaimKind
  pub allows_login : Bool

pub record NullifierRow : Type 0 where
  pub nullifier : Bytes
  pub audience : Bytes
  pub user_id : Option Bytes
  pub consumed_at : Option ℕ

pub record UserRow : Type 0 where
  pub id : Bytes
  pub email : Bytes
  pub password_hash : Option Bytes
  pub email_verified : Bool
  pub deleted_at : Option ℕ

pub record SessionClaimRow : Type 0 where
  pub session_id : Bytes
  pub claim : Bytes

pub record Db : Type 0 where
  pub challenges : List ChallengeRow
  pub commitments : List CommitmentRow
  pub credentials : List CredentialRow
  pub nodes : List NodeRow
  pub roots : List RootRow
  pub claims : List ClaimRow
  pub nullifiers : List NullifierRow
  pub users : List UserRow
  pub session_claims : List SessionClaimRow
  -- The rows of kal's own tables, its sessions among them, which only kal's code reads.
  pub kal_rows : List Bytes
