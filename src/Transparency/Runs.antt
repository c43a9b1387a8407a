-- ===== src/Transparency/Runs.antt =====
-- The transparency log on a small file.
use oath.Digest.{Collision}
use oath.Prelude.{
  ℕ, ◌+◌, ◌*◌, ◌%◌, ◌≡◌, ◌≢◌, ◌⊎◌, refl, true, List, [], ◌∷◌, ◌++◌, length, Text, none, arith,
}
use oath.Transparency.{
  PackageEntry, TransparencyCheckpoint, Result, ok, log, read_all, new_entry, verify_chain,
  verify_loop, last_hash, lines, read_lines, hash_entry, payload_of,
}
use oath.Transparency.Sample.{sample_json}
use oath.Transparency.Chain.{ends_line, verify_chain-log}
use oath.Transparency.Binding.{payloads, last_hash-commits}
use oath.Transparency.Checkpoint.{checkpoint, merkle_root, pair_up, entry_hashes}
use oath.Transparency.Checkpoint.Rounds.{merkle_root-duplicate_last}
use oath.Transparency.Checkpoint.RootBinding.{checkpoint-commits}

-- A checksum printed as 64 digits.
abbrev checksum : Text → ℕ
checksum [] = 7
checksum (b ∷ bs) = (b + 31 * checksum bs) % 10

abbrev zeros : ℕ → Text
zeros ℕ.zero = []
zeros (ℕ.suc n) = b'0' ∷ zeros n

abbrev toy : Text → Text
toy x = (b'0' + checksum x % 10) ∷ zeros 63

length-toy : (x : Text) → length (toy x) ≡ 64
length-toy x = refl

toy-first : (x d : Text) → toy x ≢ b'G' ∷ d
toy-first x d e = let c : b'0' + checksum x % 10 ≡ b'G' = cc e in omega arith

abbrev demo : List PackageEntry
demo = record { name = b'a' ∷ []; version = b'1' ∷ []; integrity = none } ∷ []

empty_verifies : verify_chain toy sample_json [] ≡ ok tt
unfolding verify_chain read_all lines read_lines
empty_verifies = refl

empty_ends : ends_line [] ≡ true
unfolding ends_line
empty_ends = refl

verify_chain-log_example :
    (read_all toy sample_json (log toy sample_json 5 (b'p' ∷ []) demo 9 [])
      ≡ read_all toy sample_json []
        ++ new_entry toy sample_json 5 (b'p' ∷ []) demo 9 (read_all toy sample_json []) ∷ [])
    × (verify_chain toy sample_json (log toy sample_json 5 (b'p' ∷ []) demo 9 []) ≡ ok tt)
    × (ends_line (log toy sample_json 5 (b'p' ∷ []) demo 9 []) ≡ true)
verify_chain-log_example =
    verify_chain-log toy sample_json 5 (b'p' ∷ []) demo 9 [] empty_ends empty_verifies

abbrev one_entry : Text
one_entry = log toy sample_json 5 (b'p' ∷ []) demo 9 []

one_entry_verifies : verify_chain toy sample_json one_entry ≡ ok tt
one_entry_verifies =
    (verify_chain-log toy sample_json 5 (b'p' ∷ []) demo 9 [] empty_ends empty_verifies).1

last_hash-commits_example :
    Collision toy ⊎ (payloads toy sample_json one_entry ≡ payloads toy sample_json one_entry)
last_hash-commits_example =
    last_hash-commits toy length-toy toy-first sample_json one_entry one_entry one_entry_verifies
      one_entry_verifies refl

abbrev one_checkpoint : TransparencyCheckpoint
one_checkpoint = record {
  version = 1;
  entry_count = length (entry_hashes (read_all toy sample_json one_entry));
  merkle_root = merkle_root toy (entry_hashes (read_all toy sample_json one_entry));
  latest_entry_hash =
      oath.Transparency.Checkpoint.last (entry_hashes (read_all toy sample_json one_entry));
}

one_checkpoint_is_made : checkpoint toy sample_json one_entry ≡ ok one_checkpoint
unfolding checkpoint
one_checkpoint_is_made = ground (arith, one_entry_verifies)

checkpoint-commits_example :
    Collision toy ⊎ (payloads toy sample_json one_entry ≡ payloads toy sample_json one_entry)
checkpoint-commits_example =
    checkpoint-commits toy length-toy sample_json toy-first one_entry one_entry {c = one_checkpoint}
      {d = one_checkpoint} one_checkpoint_is_made one_checkpoint_is_made refl refl

abbrev three : List Text
three = (b'x' ∷ []) ∷ (b'y' ∷ []) ∷ (b'z' ∷ []) ∷ []

merkle_root-duplicate_last_example :
    merkle_root toy three ≡ merkle_root toy (three ++ (b'z' ∷ []) ∷ [])
merkle_root-duplicate_last_example =
    merkle_root-duplicate_last toy ((b'x' ∷ []) ∷ (b'y' ∷ []) ∷ []) (b'z' ∷ []) (omega arith) refl
