-- ===== src/Rewards/Merkle/Pairs.antt =====
-- The hash of a pair does not depend on which side a node stands.
use centry.Prelude.{◌≡◌, Bool-cases, inl, inr}
use centry.Prelude.Text.{Text, to_lower_case, text_gt, text_gt_flip, text_gt_asymm}
use centry.Rewards.Merkle.{Ethers, pair_hash}

-- A text without capital letters, as `keccak256` returns.
abbrev pub IsLower : Text → Type 0
IsLower t = to_lower_case t ≡ t

-- `keccak256` returns its hexadecimal digits in lower case.
abbrev pub HashesLower : Ethers → Type 0
HashesLower ethers = (t : Text) → IsLower (ethers.keccak256 t)

-- The hash of two lower-case nodes does not depend on which stands left.
pub pair_hash_comm :
    (ethers : Ethers) (a b : Text)
    → IsLower a
    → IsLower b
    → pair_hash ethers a b ≡ pair_hash ethers b a
unfolding pair_hash
pair_hash_comm ethers a b la lb =
    rw (la, lb)
      (elim (Bool-cases (text_gt a b)) [
        | inl more ↦ rw (more, text_gt_asymm a b more)
        | inr no_more ↦ elim (Bool-cases (text_gt b a)) [
          | inl less ↦ rw (no_more, less)
          | inr no_less ↦ rw (text_gt_flip a b no_more no_less)
        ]
      ])

pub pair_hash-IsLower :
    (ethers : Ethers) (a b : Text) → HashesLower ethers → IsLower (pair_hash ethers a b)
unfolding pair_hash
pair_hash-IsLower ethers a b lower =
    elim (Bool-cases (text_gt (to_lower_case a) (to_lower_case b))) [
      | inl e ↦ rw e (lower _)
      | inr e ↦ rw e (lower _)
    ]
