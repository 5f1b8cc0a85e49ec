-- ===== src/Tests/Requests.antt =====
-- The theorems on a request's claims, on short histories; and those on options and encodings.
use kal_zk.Base.{Bytes, replicate, ◌++◌, ◌↔◌, ◌<◌}
use kal_zk.Base.{◌+◌, ◌≡◌, refl, ◌≢◌, Bytes, bytes_eq, codes, List, [], ◌∷◌, none, some, arith}
use kal_zk.Error.{ok}
use kal_zk.Hash.{field_bytes, parse_field}
use kal_zk.Hash.Encoding.{parse_field-field_bytes_iff}
use kal_zk.Service.{Zk, new_zk}
use kal_zk.Service.Ready.{IsComplete, new_zk-IsReady, new_zk-requires}
use kal_zk.Store.{recurring, one_shot}
use kal_zk.Tree.Climb.{IsReady}
use kal_zk.Authz.{Holder, empty_holder, has_name, prove_held, consume, covered, deduct, tally}
use kal_zk.Authz.Counts.{count, put, bump}
use kal_zk.Authz.Proving.{occurrences, IsCovered, Takes, prove_held-Takes, prove_held-allowed}
use kal_zk.Authz.Requests.{
  Call, adding, proving, after_calls, held, total_added, total_taken, after_calls-conserves,
}
use kal_zk.Tests.Toy.{toy, toy-Lawful, toy_environment, toy_options, toy_options-IsComplete}

abbrev vote : Bytes
vote = codes "vote"

abbrev adult : Bytes
adult = codes "adult"

abbrev request : List Call
request =
    adding (record { name = vote; kind = one_shot })
    ∷ adding (record { name = adult; kind = recurring })
    ∷ proving (vote ∷ vote ∷ [])
    ∷ proving (vote ∷ adult ∷ [])
    ∷ proving (vote ∷ [])
    ∷ []

after_calls-conserves_example :
    held vote (after_calls request (some empty_holder))
      + total_taken vote request (some empty_holder)
    ≡ count vote [] + total_added vote request
after_calls-conserves_example = after_calls-conserves vote request empty_holder

-- Two votes and one lasting claim.
abbrev two_votes : Holder
two_votes = record { recurring = adult ∷ []; grants = (vote, 2) ∷ []; load_err = none }

abbrev one_vote : Holder
one_vote = record { recurring = adult ∷ []; grants = (vote, 1) ∷ []; load_err = none }

ask_twice : IsCovered two_votes (vote ∷ adult ∷ vote ∷ [])
unfolding count has_name occurrences
ask_twice name = ground arith

asked_names : (vote ≢ []) × ((adult ≢ []) × ((vote ≢ []) × Unit {0}))
asked_names = ((λ e. cc), ((λ e. cc), ((λ e. cc), tt)))

prove_held-Takes_example :
    (h' : Holder) × (prove_held (vote ∷ adult ∷ vote ∷ []) two_votes ≡ (ok tt, h'))
    × Takes (vote ∷ adult ∷ vote ∷ []) two_votes h'
prove_held-Takes_example =
    prove_held-Takes (vote ∷ adult ∷ vote ∷ []) two_votes refl asked_names ask_twice

one_is_taken :
    prove_held (vote ∷ adult ∷ []) two_votes
    ≡ (ok tt, record { recurring = adult ∷ []; grants = (vote, 1) ∷ []; load_err = none })
unfolding prove_held consume covered deduct tally has_name count put bump bytes_eq
one_is_taken = refl

prove_held-allowed_example :
    IsCovered two_votes (vote ∷ adult ∷ []) × Takes (vote ∷ adult ∷ []) two_votes one_vote
prove_held-allowed_example = prove_held-allowed (vote ∷ adult ∷ []) two_votes one_vote one_is_taken

two_are_refused : (prove_held (vote ∷ vote ∷ []) one_vote).0 ≢ ok tt
unfolding prove_held consume covered deduct tally has_name count put bump bytes_eq
two_are_refused e = cc e

new_zk-IsReady_example : (z : Zk) × (new_zk toy toy_environment toy_options ≡ ok z) × IsReady toy z
new_zk-IsReady_example =
    new_zk-IsReady toy toy-Lawful toy_environment toy_options toy_options-IsComplete

new_zk-requires_example : IsComplete toy_environment toy_options
new_zk-requires_example =
    new_zk-requires toy toy-Lawful toy_environment toy_options new_zk-IsReady_example.0
      new_zk-IsReady_example.1

abbrev stored : Bytes
stored = replicate 30 0 ++ (1 ∷ 7 ∷ [])

parse_field-field_bytes_iff_example :
    (parse_field toy stored ≡ ok 263) ↔ ((stored ≡ field_bytes 263) × (263 < toy.modulus))
parse_field-field_bytes_iff_example =
    parse_field-field_bytes_iff toy toy-Lawful stored 263 (omega arith)
