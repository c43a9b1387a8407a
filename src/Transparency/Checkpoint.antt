-- ===== src/Transparency/Checkpoint.antt =====
-- `merkle_root` and `checkpoint` of crates/oath-transparency/src/lib.rs.
pub mod Rounds
pub mod RootBinding
use oath.Prelude.{
  ℕ, zero, suc, ◌+◌, Option, none, some, List, [], ◌∷◌, ◌++◌, length, Text, leb, if◌then◌else◌,
}
use oath.Transparency.{
  TransparencyEntry, TransparencyCheckpoint, Json, Result, ok, err, read_all, verify_chain,
}

-- `filter_map(|entry| entry.entry_hash)`
pub entry_hashes : List TransparencyEntry → List Text
entry_hashes [] = []
entry_hashes (e ∷ es) = elim e.entry_hash [ none ↦ entry_hashes es | some h ↦ h ∷ entry_hashes es ]

-- `hashes.last().cloned()`
pub last : List Text → Option Text
last [] = none
last (h ∷ []) = some h
last (h ∷ i ∷ hs) = last (i ∷ hs)

module _ (sha256 : Text → Text) where
  -- One round: a last hash without a partner is paired with itself, which is what pushing a clone
  -- of it onto a list of odd length does.
  pub pair_up : List Text → List Text
  pair_up [] = []
  pair_up (h ∷ []) = sha256 (h ++ h) ∷ []
  pair_up (h ∷ i ∷ hs) = sha256 (h ++ i) ∷ pair_up hs

  -- `while hashes.len() > 1`, then `hashes.remove(0)`. A round shortens the list, so its length is
  -- fuel enough (`merkle_root-round`), and the clause that runs out is not reached.
  pub merkle_loop : ℕ → List Text → Text
  unfolding pair_up
  merkle_loop fuel [] = sha256 []
  merkle_loop fuel (h ∷ []) = h
  merkle_loop zero (h ∷ i ∷ hs) = []
  merkle_loop (suc fuel) (h ∷ i ∷ hs) = merkle_loop fuel (pair_up (h ∷ i ∷ hs))

  pub merkle_root : List Text → Text
  unfolding merkle_loop
  merkle_root hashes = merkle_loop (length hashes) hashes

module _ (sha256 : Text → Text) (json : Json) where
  -- The checkpoint is also written beside the log, by a rename; the file is not modelled.
  unfoldable pub checkpoint : Text → Result TransparencyCheckpoint
  unfolding last
  checkpoint file =
      let hashes = entry_hashes (read_all sha256 json file) in
      elim (verify_chain sha256 json file) [
        | err e ↦ err e
        | ok _ ↦ ok (record {
          version = 1;
          entry_count = length hashes;
          merkle_root = merkle_root sha256 hashes;
          latest_entry_hash = last hashes;
        })
      ]
