-- ===== src/Crypto/Tests/Passes.antt =====
-- The test program of Virtio_Crypto_Chat/virtio-cryptodev/guest at concrete inputs.
use operating_systems_lab_nt.Prelude.{
  ℕ, suc, ◌+◌, ◌-◌, ◌≡◌, ◌↔◌, true, List, [], ◌∷◌, none, some, ◌==◌, if◌then◌else◌, replicate,
}
use operating_systems_lab_nt.Chat.Flow.{next}
use operating_systems_lab_nt.Crypto.Guest.{block_size}
use operating_systems_lab_nt.Crypto.Host.{Cryptodev}
use operating_systems_lab_nt.Crypto.Selftest.{Calls, Data, data_size, key_size, main}
use operating_systems_lab_nt.Crypto.Selftest.Passing.{Succeeded, main-Succeeded}

abbrev plus_one : List ℕ → List ℕ
plus_one [] = []
plus_one (b ∷ rest) = (b + 1) ∷ plus_one rest

abbrev minus_one : List ℕ → List ℕ
minus_one [] = []
minus_one (b ∷ rest) = (b - 1) ∷ minus_one rest

-- A host whose cipher adds one to each byte, and which counts its calls.
abbrev pub adder : Cryptodev ℕ
adder = record {
  open_file = λ v. (3, v);
  close_file = λ fd v. v;
  get_session = λ fd sess key v. (0, record sess { ses = 7 }, suc v);
  free_session = λ fd ses v. (0, suc v);
  crypt = λ fd op src iv dst v. (0, (if op.op == 0 then plus_one src else minus_one src), suc v);
}

-- A system that counts the files that it opens.
abbrev counting : Calls ℕ
counting = record {
  open_file = λ name w. (some (w + 3), suc w);
  read = λ fd size w. (some (9 ∷ 8 ∷ []), w);
  close = λ fd w. (true, w);
  ciocgsession = λ cfd sess key w. (some 7, w);
  cioccrypt = λ cfd op src iv dst w. (some src, w);
  ciocfsession = λ cfd ses w. (true, w);
  fork = λ w. (some 0, w);
  wait = λ w. w;
}

abbrev blank : Data
blank = record {
  input = replicate data_size 0;
  encrypted = replicate data_size 0;
  decrypted = replicate data_size 0;
  iv = replicate block_size 0;
  key = replicate key_size 0;
}

main-Succeeded_example :
    (main counting none blank 0 ≡ (next 0, 2)) ↔ Succeeded counting none blank 0 2
main-Succeeded_example = main-Succeeded counting none blank 0 2
