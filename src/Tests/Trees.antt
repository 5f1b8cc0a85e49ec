-- ===== src/Tests/Trees.antt =====
-- The theorems on the credential tree, on a tree with one or two credentials.
use kal_zk.Base.{◌≤◌, ◌≡◌, refl, List, [], ◌∷◌, none, some, false, arith, be_value}
use kal_zk.Error.{ok, err, kal, invalid_input}
use kal_zk.Hash.{field_bytes}
use kal_zk.Hash.Encoding.{be_value-field_bytes}
use kal_zk.Hash.Commitments.{leaf_commitment}
use kal_zk.Hash.Entropy.{draw, all_zero}
use kal_zk.Store.{Db, CredentialRow, NodeRow}
use kal_zk.Store.Exec.{World, pool}
use kal_zk.Store.Credentials.{Verdict, next_index, find_credential}
use kal_zk.Tree.{Credential, issue_credential, revoke_credential, fetch_path, max_uint32}
use kal_zk.Tree.{write_leaf}
use kal_zk.Tree.Shape.{set_leaf, tree_root}
use kal_zk.Tree.Climb.{alone, Stores}
use kal_zk.Tree.Write.{published, write_leaf-Stores}
use kal_zk.Tree.Issue.{issue_credential-Publishes, new_row, issued, issue_credential-IsTree}
use kal_zk.Tree.Revoke.{Revoked, revoke_credential-Revoked, fetch_path-revoked}
use kal_zk.Tree.Undo.{SameTree, revoke-issue}
use kal_zk.Tree.History.{Past, publish, Had, unpublished, issue}
use kal_zk.Store.Roots.{put_root, retire_rows}
use kal_zk.Tree.Invariant.{Publishes, IsTree, solo, settled, live_leaves}
use kal_zk.Tree.Fresh.{empty_db-IsTree}
use kal_zk.Proof.Issued.{Proves, issue_credential-Proves}
use kal_zk.Tests.Toy.{
  toy, toy-Lawful, toy_zk, keyed, toy_zk-IsReady, start, first_secret, second_secret,
  first_secret-IsSecret, allow_all,
}

abbrev pub accept : Verdict
accept db row = none

abbrev pub start-IsTree : IsTree toy start.db
start-IsTree = empty_db-IsTree toy

pub drawn_first : draw 3 start.entropy ≡ (ok first_secret, some second_secret ∷ [])
unfolding draw all_zero
drawn_first = refl

pub nothing_issued : next_index [] ≤ max_uint32
unfolding next_index
nothing_issued = omega arith

issue_credential-Proves_example :
    (credential : Credential) × ((issue_credential toy toy_zk pool accept [] 18 (solo start)).0
      ≡ ok credential)
    × Proves toy credential credential.path
issue_credential-Proves_example =
    issue_credential-Proves toy toy-Lawful toy_zk toy_zk-IsReady start start-IsTree accept []
      first_secret 18 allow_all (some second_secret ∷ []) refl refl drawn_first
      first_secret-IsSecret nothing_issued refl

issue_credential-IsTree_example :
    (d : Db) × (issue_credential toy toy_zk pool accept [] 18 (solo start) ≡ (
      ok (issued toy [] first_secret 18),
      record (settled start d) { entropy = some second_secret ∷ [] },
    ))
    × IsTree toy d
    × (d.credentials ≡ new_row (next_index []) (leaf_commitment toy first_secret 18) [] ∷ [])
issue_credential-IsTree_example =
    issue_credential-IsTree toy toy-Lawful toy_zk toy_zk-IsReady start start-IsTree accept []
      first_secret 18 allow_all (some second_secret ∷ []) refl refl drawn_first
      first_secret-IsSecret nothing_issued refl

-- The first issuance.
abbrev pub first_issue :
    (d : Db) × (issue_credential toy keyed pool accept [] 18 (solo start) ≡ (
      ok (issued toy [] first_secret 18),
      record (settled start d) { entropy = some second_secret ∷ [] },
    ))
    × IsTree toy d
    × (d.credentials ≡ new_row (next_index []) (leaf_commitment toy first_secret 18) [] ∷ [])
    × Publishes toy start d
first_issue =
    issue_credential-Publishes toy toy-Lawful keyed toy_zk-IsReady start start-IsTree accept []
      first_secret 18 allow_all (some second_secret ∷ []) refl refl drawn_first
      first_secret-IsSecret nothing_issued refl

revoke-issue_example :
    let (_, issued) = issue_credential toy toy_zk pool accept [] 18 (solo start) in
    let (_, revoked) = revoke_credential toy toy_zk pool (next_index []) issued in
    SameTree toy toy_zk revoked start
revoke-issue_example =
    revoke-issue toy toy-Lawful toy_zk toy_zk-IsReady start start-IsTree accept [] first_secret 18
      allow_all (some second_secret ∷ []) refl refl drawn_first first_secret-IsSecret nothing_issued
      refl

-- The tables with one credential, and the service's next call on them.
abbrev pub one_issued : Db
one_issued = first_issue.0

abbrev pub one_issued-IsTree : IsTree toy one_issued
one_issued-IsTree = first_issue.2

abbrev pub later : World
later = record (settled start one_issued) { entropy = some second_secret ∷ [] }

-- It is the history of the tree.
abbrev pub first_state : List Past
first_state = publish start.now (live_leaves one_issued.credentials) []

pub later-Had : Had toy keyed later first_state
later-Had =
    issue start later [] accept [] first_secret 18 allow_all (some second_secret ∷ [])
      (issued toy [] first_secret 18) (unpublished start start-IsTree refl) refl refl drawn_first
      first_secret-IsSecret nothing_issued refl first_issue.1

pub one_issued-roots :
    one_issued.roots
    ≡ record {
      root = field_bytes (tree_root toy (live_leaves one_issued.credentials));
      retired_at = none;
    }
      ∷ []
unfolding put_root retire_rows
one_issued-roots = first_issue.4

abbrev pub first_row : CredentialRow
first_row = new_row 0 (leaf_commitment toy first_secret 18) []

pub found_first : find_credential 0 one_issued.credentials ≡ some first_row
unfolding find_credential next_index
found_first = rw first_issue.3

pub first_fits :
    be_value (field_bytes (leaf_commitment toy first_secret 18))
    ≡ leaf_commitment toy first_secret 18
first_fits = be_value-field_bytes toy toy-Lawful (leaf_commitment toy first_secret 18) (omega arith)

revoke_credential-Revoked_example :
    (d : Db) × (revoke_credential toy toy_zk pool 0 (solo later) ≡ (ok tt, settled later d))
    × Revoked toy 0 one_issued d
revoke_credential-Revoked_example =
    revoke_credential-Revoked toy toy-Lawful toy_zk toy_zk-IsReady later one_issued-IsTree 0
      (omega arith)

fetch_path-revoked_example :
    (fetch_path toy toy_zk pool 0 (revoke_credential toy toy_zk pool 0 (solo later)).1).0
    ≡ err (kal invalid_input)
fetch_path-revoked_example =
    fetch_path-revoked toy toy-Lawful toy_zk toy_zk-IsReady later one_issued-IsTree 0 (omega arith)

write_leaf-Stores_example :
    (nodes : List NodeRow) × (write_leaf toy toy_zk 5 42 false (alone start []) ≡ (
      ok (tree_root toy (set_leaf (live_leaves []) 5 (some 42))),
      published toy start nodes (tree_root toy (set_leaf (live_leaves []) 5 (some 42))),
    ))
    × Stores toy nodes (set_leaf (live_leaves []) 5 (some 42))
write_leaf-Stores_example =
    write_leaf-Stores toy toy-Lawful toy_zk toy_zk-IsReady start (live_leaves []) 5 42 false []
      (omega arith) (omega arith) start-IsTree.nodes
