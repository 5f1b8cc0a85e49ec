-- ===== src/Tests/History.antt =====
-- The history of a tree whose one credential belongs to a user.
use kal_zk.Tree.History.Ousting.{Ousted, revoke_credentials_for_user-outcome}
use kal_zk.Base.{
  subst, sym, ◌≡◌, refl, List, [], ◌∷◌, none, some, if◌then◌else◌, Bytes, bytes_eq, codes, ◌||◌,
  ◌⊎◌,
}
use kal_zk.Error.{ok, err, sql_state}
use kal_zk.Hash.Commitments.{leaf_commitment}
use kal_zk.Store.{Db}
use kal_zk.Store.Exec.{World, pool}
use kal_zk.Store.Credentials.{Uuid, invalid_text, next_index}
use kal_zk.Store.Credentials.Owned.{IsKeyed}
use kal_zk.Tree.{issue_credential, revoke_credentials_for_user}
use kal_zk.Tree.Issue.{new_row, issued, issue_credential-Publishes}
use kal_zk.Tree.Invariant.{IsTree, Publishes, solo, settled, live_leaves}
use kal_zk.Tree.History.{Past, publish, Had, unpublished, issue}
use kal_zk.Tests.Toy.{
  toy, toy-Lawful, toy_zk, toy_zk-IsReady, start, first_secret, second_secret,
  first_secret-IsSecret, allow_all,
}
use kal_zk.Tests.Trees.{accept, start-IsTree, drawn_first, nothing_issued}

abbrev user : Bytes
user = 117 ∷ []

abbrev user_issue :
    (d : Db) × (issue_credential toy toy_zk pool accept user 18 (solo start) ≡ (
      ok (issued toy [] first_secret 18),
      record (settled start d) { entropy = some second_secret ∷ [] },
    ))
    × IsTree toy d
    × (d.credentials ≡ new_row (next_index []) (leaf_commitment toy first_secret 18) user ∷ [])
    × Publishes toy start d
user_issue =
    issue_credential-Publishes toy toy-Lawful toy_zk toy_zk-IsReady start start-IsTree accept user
      first_secret 18 allow_all (some second_secret ∷ []) refl refl drawn_first
      first_secret-IsSecret nothing_issued refl

abbrev owned_world : World
owned_world = record (settled start user_issue.0) { entropy = some second_secret ∷ [] }

abbrev one_state : List Past
one_state = publish start.now (live_leaves user_issue.0.credentials) []

owned_world-Had : Had toy toy_zk owned_world one_state
owned_world-Had =
    issue start owned_world [] accept user first_secret 18 allow_all (some second_secret ∷ [])
      (issued toy [] first_secret 18) (unpublished start start-IsTree refl) refl refl drawn_first
      first_secret-IsSecret nothing_issued refl user_issue.1

owned_world-IsKeyed : IsKeyed owned_world.db.credentials
owned_world-IsKeyed = subst IsKeyed (sym user_issue.3) (refl, tt)

-- Ids of one letter; a capital is read as the small letter.
abbrev letter_uuid : Uuid
letter_uuid s = if bytes_eq s (codes "u") || bytes_eq s (codes "U") then some (codes "u") else none

revoke_credentials_for_user-outcome_example :
    ((id : Bytes) × (w' : World) × (letter_uuid (codes "U") ≡ some id)
      × (revoke_credentials_for_user toy toy_zk letter_uuid pool (codes "U") (solo owned_world)
          ≡ (ok tt, w'))
      × Ousted toy toy-Lawful toy_zk toy_zk-IsReady owned_world letter_uuid id w')
    ⊎ ((letter_uuid (codes "U") ≡ none)
        × (revoke_credentials_for_user toy toy_zk letter_uuid pool (codes "U") (solo owned_world)
            ≡ (err (sql_state invalid_text), settled owned_world owned_world.db)))
revoke_credentials_for_user-outcome_example =
    revoke_credentials_for_user-outcome toy toy-Lawful toy_zk toy_zk-IsReady owned_world one_state
      letter_uuid (codes "U") owned_world-Had owned_world-IsKeyed
