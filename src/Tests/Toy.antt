-- ===== src/Tests/Toy.antt =====
-- A small stand-in for gnark-crypto, a service over it, and a database with a waiting secret.
use native.Mathlib.Nat.{mod-eq_of_lt}
use kal_zk.Base.{
  ℕ, ◌+◌, ◌*◌, ◌%◌, ◌^◌, ◌<◌, refl, Bytes, List, [], ◌∷◌, ltb, be_value, Option, none, some, true,
  replicate, arith, lt→ltb, inl, codes,
}
use kal_zk.Base.Int.{pos}
use kal_zk.Error.{Error}
use kal_zk.Hash.{Field, Crypto, Lawful, Secret}
use kal_zk.Hash.Commitments.{IsSecret, knowledge_hash}
use kal_zk.Service.{
  Zk, Options, Environment, circuit_knowledge, circuit_membership, is_knowledge, is_membership,
  is_negative, build,
}
use kal_zk.Service.Ready.{IsComplete, all_zeros, get_or-all_zeros}
use kal_zk.Store.Exec.{World}
use kal_zk.Tree.Climb.{IsReady}
use kal_zk.Tree.Fresh.{empty_db}

abbrev pub toy_modulus : ℕ
toy_modulus = 2 ^ 254

abbrev pub mix : ℕ → List Field → ℕ
mix acc [] = acc
mix acc (x ∷ xs) = mix ((acc * 1000003 + x + 1) % toy_modulus) xs

abbrev pub toy : Crypto
toy = record {
  modulus = toy_modulus;
  canonical = λ raw. ltb (be_value raw) toy_modulus;
  reduce = λ n. n % toy_modulus;
  write_ok = λ x. ltb x toy_modulus;
  mimc_sum = λ xs. mix 7 xs % toy_modulus;
}

below_modulus : (n : ℕ) → n % toy_modulus < toy_modulus
below_modulus n = omega arith

pub toy-Lawful : Lawful toy
toy-Lawful = record {
  modulus_lower = omega arith;
  modulus_upper = omega arith;
  canonical-ltb = λ raw e. refl;
  reduce-lt = below_modulus;
  reduce_small = λ n h. mod-eq_of_lt h;
  write_canonical = λ x h. lt→ltb x toy_modulus h;
  mimc_sum-lt = λ xs. below_modulus (mix 7 xs);
}

abbrev pub allow_all : Bytes → ℕ → Option Error
allow_all to attribute = none

abbrev pub toy_options : Options
toy_options = record {
  knowledge_vk = some (record { circuit = circuit_knowledge; key = some [] });
  membership_vk = some (record { circuit = circuit_membership; key = some [] });
  has_sessions = true;
  has_hasher = true;
  has_proof_sink = true;
  cookie_name = [];
  schema = [];
  root_grace = pos 30;
  mfa_window = pos 0;
  max_concurrent_verifications = pos 8;
  authorize_credential_issue = some allow_all;
}

abbrev pub toy_environment : Environment
toy_environment = record {
  processors = 4;
  default_mfa_window = 900;
  default_cookie_name = codes "kal_session";
  append_ident = λ schema. schema;
  minute = 60;
  two_seconds = 2;
}

pub toy_options-IsComplete : IsComplete toy_environment toy_options
unfolding is_knowledge is_membership is_negative
toy_options-IsComplete = (refl, refl, refl, refl, refl, refl, inl refl)

abbrev pub toy_zk : Zk
toy_zk =
    build toy toy_environment toy_options [] (all_zeros toy) (knowledge_hash toy (replicate 31 0))

abbrev pub keyed : Zk
keyed = record toy_zk {
  membership = some (record { circuit = circuit_membership; key = some (8 ∷ []) });
}

pub toy_zk-IsReady : IsReady toy toy_zk
toy_zk-IsReady = get_or-all_zeros toy toy-Lawful

abbrev pub first_secret : Secret
first_secret = 1 ∷ replicate 30 9

abbrev pub second_secret : Secret
second_secret = 2 ∷ replicate 30 5

pub first_secret-IsSecret : IsSecret first_secret
first_secret-IsSecret = (refl, omega arith)

pub second_secret-IsSecret : IsSecret second_secret
second_secret-IsSecret = (refl, omega arith)

-- Empty tables, and two secrets that the random source will give.
abbrev pub start : World
start = record {
  db = empty_db;
  base = empty_db;
  now = 100;
  schedule = [];
  entropy = some first_secret ∷ some second_secret ∷ [];
}
