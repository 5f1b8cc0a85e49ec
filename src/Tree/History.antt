-- ===== src/Tree/History.antt =====
-- The states that the tree has had. A stored root is that of one of them, and its retirement is the
-- time at which the next one was published (zkauthn/tree.go: writeLeaf, rootAccepted).
pub mod Kept
pub mod Cascade
pub mod Reached
pub mod Ousted
pub mod Ousting
pub mod Accepted
use kal_zk.Base.{
  ℕ, suc, ◌+◌, ◌≤◌, ◌<◌, ◌≡◌, ◌⊎◌, inl, inr, refl, sym, ap, ◌∙◌, Bytes, List, [], ◌∷◌, map, Option,
  none, some, All,
}
use kal_zk.Error.{Result, ok, Error}
use kal_zk.Hash.{Crypto, Secret, field_bytes}
use kal_zk.Hash.Commitments.{IsSecret, leaf_commitment}
use kal_zk.Hash.Entropy.{draw, entropy_attempts}
use kal_zk.Store.Credentials.{Verdict, next_index, live_commitment, mark_rows, owned_indices, Uuid}
use kal_zk.Tree.Issue.{new_row}
use kal_zk.Service.{Zk}
use kal_zk.Store.{Db, RootRow, CredentialRow}
use kal_zk.Store.Exec.{World, pool}
use kal_zk.Tree.{
  Credential, max_uint32, issue_credential, revoke_credential, revoke_credentials_for_user,
}
use kal_zk.Tree.Shape.{Leaves, tree_root}
use kal_zk.Tree.Invariant.{IsTree, live_leaves, solo}

-- The live leaves of a state, and when the next one took its place.
pub record Past : Type 0 where
  pub leaves : Leaves
  pub until : Option ℕ

abbrev pub close : ℕ → Past → Past
close now p = record p { until = elim p.until [ none ↦ some now | some t ↦ some t ] }

-- The states after new leaves are published, the newest first.
abbrev pub publish : ℕ → Leaves → List Past → List Past
publish now leaves past = record { leaves = leaves; until = none } ∷ map (close now) past

abbrev pub Any {ℓ} : {A : Type ℓ} → (A → Type 0) → List A → Type 0
Any P [] = ⊥
Any P (x ∷ xs) = P x ⊎ Any P xs

-- The row is of the state.
abbrev pub IsOf : Crypto → RootRow → Past → Type 0
IsOf c r p = (r.root ≡ field_bytes (tree_root c p.leaves)) × (r.retired_at ≡ p.until)

-- The rows, and the states, after the given indices are marked and published one by one.
abbrev pub mark_all : ℕ → List ℕ → List CredentialRow → List CredentialRow
mark_all now [] rows = rows
mark_all now (i ∷ rest) rows = mark_all now rest (mark_rows now i rows)

abbrev pub publish_all : ℕ → List CredentialRow → List ℕ → List Past → List Past
publish_all now rows [] past = past
publish_all now rows (i ∷ rest) past =
    let marked = mark_rows now i rows in
    publish_all now marked rest (publish now (live_leaves marked) past)

-- The states that a tree had, in the world that its writers left. Each writer is alone at work, as
-- the advisory lock makes it, and anything else may happen between two of them.
pub data Had (c : Crypto) (z : Zk) : World → List Past → Type 0 where
  unpublished : (w : World) → IsTree c w.db → w.db.roots ≡ [] → Had c z w []
  issue :
      (w w' : World) (past : List Past) (verdict : Verdict) (to : Bytes) (secret : Secret)
      (attribute : ℕ) (authorize : Bytes → ℕ → Option Error) (reads : List (Option Bytes))
      (cred : Credential)
      → Had c z w past
      → z.authorize_issue ≡ some authorize
      → authorize to attribute ≡ none
      → draw entropy_attempts w.entropy ≡ (ok secret, reads)
      → IsSecret secret
      → next_index w.db.credentials ≤ max_uint32
      → verdict w.db (new_row (next_index w.db.credentials) (leaf_commitment c secret attribute) to)
        ≡ none
      → issue_credential c z pool verdict to attribute (solo w) ≡ (ok cred, w')
      → Had c z w' (publish w.now (live_leaves w'.db.credentials) past)
  revoke :
      (w w' : World) (past : List Past) (i : ℕ) (raw : Bytes)
      → Had c z w past
      → i ≤ max_uint32
      → live_commitment i w.db.credentials ≡ some raw
      → revoke_credential c z pool i (solo w) ≡ (ok tt, w')
      → Had c z w' (publish w.now (live_leaves w'.db.credentials) past)
  revoke_user :
      (w w' : World) (past : List Past) (uuid : Uuid) (user id : Bytes)
      → Had c z w past
      → uuid user ≡ some id
      → revoke_credentials_for_user c z uuid pool user (solo w) ≡ (ok tt, w')
      → Had c z w'
          (publish_all w.now w.db.credentials (owned_indices uuid id w.db.credentials) past)
  elsewhere :
      (w w' : World) (past : List Past)
      → Had c z w past
      → w'.db.credentials ≡ w.db.credentials
      → w'.db.nodes ≡ w.db.nodes
      → w'.db.roots ≡ w.db.roots
      → Had c z w' past
