-- ===== src/Tree/History/Reached.antt =====
-- Every history of the tree explains the roots that are stored.
use kal_zk.Base.{◌≡◌, sym, ap, ◌∙◌, subst, List, All}
use kal_zk.Error.{Result}
use kal_zk.Hash.{Crypto, Lawful}
use kal_zk.Service.{Zk}
use kal_zk.Store.{Db}
use kal_zk.Store.Exec.{World}
use kal_zk.Tree.Climb.{IsReady}
use kal_zk.Tree.Invariant.{IsTree, Publishes, live_leaves}
use kal_zk.Tree.Issue.{issue_credential-Publishes}
use kal_zk.Tree.Revoke.{revoke_credential-Publishes}
use kal_zk.Tree.History.{Past, publish, Had, unpublished, issue, revoke, revoke_user, elsewhere}
use kal_zk.Tree.History.Kept.{IsDated, IsKept, publish-IsKept}
use kal_zk.Tree.History.Cascade.{revoke_credentials_for_user-Ends}

module _ (c : Crypto) (laws : Lawful c) (z : Zk) (ready : IsReady c z) where
  moved :
      {A : Type 0} (w' : World) (d : World) (a b : Result A) (x : Result A × World)
      → x ≡ (a, d)
      → x ≡ (b, w')
      → d.db ≡ w'.db
  moved w' d a b x left right = ap (λ y. y.1.db) (sym left ∙ right)

  -- A writer that left the tables `d` is the one of the history.
  carry_over :
      (w : World) (d e : Db) (past : List Past)
      → d ≡ e
      → IsKept c w.db past
      → IsTree c d
      → Publishes c w d
      → IsKept c e (publish w.now (live_leaves e.credentials) past)
  carry_over w d e past same kept tree published =
      subst (λ x. IsKept c x (publish w.now (live_leaves x.credentials) past)) same
        (publish-IsKept c w d past kept tree published)

  -- In every history, the stored roots are those of its states, and only the present state is open.
  pub Had-IsKept : {w : World} {past : List Past} → Had c z w past → IsKept c w.db past
  Had-IsKept (unpublished w tree empty) = record {
    tree = tree;
    rows = subst (All _) (sym empty) tt;
    dated = tt;
  }
  Had-IsKept
        (issue w w' past verdict to secret attribute authorize reads cred h has allows drawn hs
          small accepted run) =
      let kept = Had-IsKept h in
      let (d, made, tree, _, published) =
        issue_credential-Publishes c laws z ready w kept.tree verdict to secret attribute authorize
          reads has allows drawn hs small accepted in
      carry_over w d w'.db past (moved w' _ _ _ _ made run) kept tree published
  Had-IsKept (revoke w w' past i raw h small live run) =
      let kept = Had-IsKept h in
      let (d, made, tree, _, published) =
        revoke_credential-Publishes c laws z ready w kept.tree i raw small live in
      carry_over w d w'.db past (moved w' _ _ _ _ made run) kept tree published
  Had-IsKept (revoke_user w w' past uuid user id h known run) =
      let kept = Had-IsKept h in
      let (_, after) =
        (revoke_credentials_for_user-Ends c laws z ready w past uuid user id known kept).value tt w'
          run in
      after
  Had-IsKept (elsewhere w w' past h credentials nodes roots) =
      let kept = Had-IsKept h in
      record {
        tree = record {
          nodes = rw (nodes, credentials) kept.tree.nodes;
          root = rw (roots, credentials) kept.tree.root;
          canonical = rw credentials kept.tree.canonical;
          bounded = rw credentials kept.tree.bounded;
        };
        rows = subst (All _) (sym roots) kept.rows;
        dated = subst (λ rows. All (IsDated (live_leaves rows)) past) (sym credentials) kept.dated;
      }
