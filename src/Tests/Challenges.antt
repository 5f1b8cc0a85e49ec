-- ===== src/Tests/Challenges.antt =====
-- The theorems on challenges, on one challenge that is issued and spent.
use kal_zk.Base.{◌≡◌, refl, Bytes, [], ◌∷◌, none, some, arith, be_value, bytes_eq}
use kal_zk.Error.{ok}
use kal_zk.Hash.Entropy.{draw, all_zero, entropy_attempts}
use kal_zk.Store.{knowledge}
use kal_zk.Store.Exec.{World}
use kal_zk.Store.Challenges.{Refusal}
use kal_zk.Challenge.{Tokens, LawfulTokens, issue_challenge, consume_challenge}
use kal_zk.Challenge.Spending.{at_time}
use kal_zk.Challenge.Roundtrip.{issue-consume}
use kal_zk.Tree.Invariant.{solo}
use kal_zk.Tests.Toy.{toy_zk, start, first_secret, second_secret}

abbrev pub toy_tokens : Tokens
toy_tokens = record {
  sha256 = λ raw. raw;
  encode = λ raw. raw;
  decode = λ raw. some raw;
  encoded_len = λ n. n;
}

toy_tokens-LawfulTokens : LawfulTokens toy_tokens
toy_tokens-LawfulTokens = record { decode-encode = λ raw. refl; length-encode = λ raw. refl }

abbrev accept : Refusal
accept db row = none

abbrev session : Bytes
session = 7 ∷ []

drawn_first : draw entropy_attempts start.entropy ≡ (ok first_secret, some second_secret ∷ [])
unfolding draw all_zero
drawn_first = refl

-- An issue for a session, and the answer to it in time.
issue-consume_example :
    let (answer, issued) =
      issue_challenge toy_tokens accept toy_zk knowledge session (solo start) in
    (answer ≡ ok first_secret)
    × ((consume_challenge toy_tokens first_secret knowledge session (at_time issued 120)).0
        ≡ ok (be_value first_secret))
unfolding bytes_eq
issue-consume_example =
    issue-consume toy_tokens toy_tokens-LawfulTokens accept toy_zk knowledge knowledge session
      session start first_secret (some second_secret ∷ []) 120 drawn_first refl (λ row. refl) tt
      (omega arith)

-- The tables with that challenge, twenty units of time later.
abbrev issued : World
issued = at_time (issue_challenge toy_tokens accept toy_zk knowledge session (solo start)).1 120

abbrev spent : World
spent = (consume_challenge toy_tokens first_secret knowledge session issued).1
