-- ===== src/Rewards/Queue/Files.antt =====
-- What the tests of scripts/queue-reward-epoch.js mean for the two files and for the signer.
use centry.Prelude.{
  ℕ, ◌<◌, ◌≡◌, true, not, some, ok, when_ok, ok_injective, subst, throw_if, throw_if-eq-ok, ◌==◌,
  arith,
}
use centry.Prelude.Int.{ℤ, pos, int_eq, int_eq_sound}
use centry.Prelude.Text.{Text, text_eq_sound}
use centry.Rewards.Types.{
  Error, file_not_found, epoch_missing, epoch_not_positive, budget_not_positive, epoch_mismatch,
  wrong_chain, Field, int, AllocationInput, ManifestInput,
}
use centry.Rewards.Merkle.{Ethers}
use centry.Rewards.Manifest.{read_int, required, checked_address}
use centry.Rewards.Validate.{is_bytes32, positive, present, read_root}
use centry.Rewards.Validate.Fields.{
  read_int-positive, positive-field, positive-eq, required-eq, present-eq, read_root-eq,
}
use centry.Rewards.Queue.{Run, Request, some_root, read_request, check_signer}

-- The two files are there and have the request's epoch, the manifest has its root and the
-- allocations its budget; epoch and budget are above zero, and the root is a 32-byte value.
pub record IsAsked (run : Run) (s : Request) : Type 0 where
  pub manifest : ManifestInput
  pub allocations : AllocationInput
  pub manifest_read : run.manifest ≡ some manifest
  pub allocations_read : run.allocations ≡ some allocations
  pub manifest_epoch : manifest.epoch ≡ int (pos s.epoch)
  pub allocated_epoch : allocations.epoch ≡ int (pos s.epoch)
  pub manifest_root : manifest.root ≡ some s.root
  pub root_form : is_bytes32 s.root ≡ true
  pub allocated_budget : allocations.reward_budget ≡ int (pos s.budget)
  pub some_epoch : 0 < s.epoch
  pub some_budget : 0 < s.budget

-- The epoch of the allocations, compared with the manifest's.
matched :
    (f : Field) (n : ℤ) (epoch : ℕ) (e : Error)
    → read_int f ≡ ok n
    → throw_if (not (int_eq n (pos epoch))) e ≡ ok tt
    → 0 < epoch
    → f ≡ int (pos epoch)
matched f n epoch e h t above =
    let same : n ≡ pos epoch = int_eq_sound n (pos epoch) (ground (arith, throw_if-eq-ok _ _ t)) in
    read_int-positive f epoch (rw same at h) above

pub read_request-IsAsked : (run : Run) (s : Request) → read_request run ≡ ok s → IsAsked run s
unfolding read_request
read_request-IsAsked run s h = when_ok (present run.manifest file_not_found) _ h λ m e h₁.
    when_ok (present run.allocations file_not_found) _ h₁ λ a e₁ h₂.
      when_ok (required m.epoch epoch_missing) _ h₂ λ f e₂ h₃.
        when_ok (some_root m.root) _ h₃ λ _ _ h₄. when_ok (read_int f) _ h₄ λ n e₄ h₅.
          when_ok (read_int a.reward_budget) _ h₅ λ b e₅ h₆.
            when_ok (read_root m.root) _ h₆ λ r e₆ h₇.
              when_ok (positive n epoch_not_positive) _ h₇ λ k e₇ h₈.
                when_ok (positive b budget_not_positive) _ h₈ λ c e₈ h₉.
                  when_ok (read_int a.epoch) _ h₉ λ d e₉ h₁₀.
                    when_ok (throw_if (not (int_eq d (pos k))) epoch_mismatch) _ h₁₀ λ _ t h₁₁.
                      let above = (positive-eq n _ k e₇).1 in
                      let (root, form) = read_root-eq m.root r e₆ in
                      subst (IsAsked run) (ok_injective h₁₁) (record {
                        manifest = m;
                        allocations = a;
                        manifest_read = present-eq _ _ m e;
                        allocations_read = present-eq _ _ a e₁;
                        manifest_epoch = rw (required-eq _ _ f e₂) (positive-field f n _ k e₄ e₇);
                        allocated_epoch = matched a.epoch d k _ e₉ t above;
                        manifest_root = root;
                        root_form = form;
                        allocated_budget = positive-field a.reward_budget b _ c e₅ e₈;
                        some_epoch = above;
                        some_budget = (positive-eq b _ c e₈).1;
                      })

-- The chain is the expected one, and the owner and the signer have the same address.
pub record IsSigned (ethers : Ethers) (run : Run) : Type 0 where
  pub expected_chain : run.chain_id ≡ 5042
  pub address : Text
  pub owned : ethers.get_address run.owner ≡ some address
  pub signed : ethers.get_address run.signer ≡ some address

checked_address-some :
    (ethers : Ethers) (t x : Text) → checked_address ethers t ≡ ok x → ethers.get_address t ≡ some x
unfolding checked_address
checked_address-some ethers t x h = ground arith

pub check_signer-IsSigned :
    (ethers : Ethers) (run : Run) → check_signer ethers run ≡ ok tt → IsSigned ethers run
unfolding check_signer
check_signer-IsSigned ethers run h =
    when_ok (throw_if (not (run.chain_id == 5042)) wrong_chain) _ h λ _ e h₁.
      when_ok (checked_address ethers run.owner) _ h₁ λ x e₁ h₂.
        when_ok (checked_address ethers run.signer) _ h₂ λ y e₂ h₃.
          let same : x ≡ y = text_eq_sound x y (ground (arith, throw_if-eq-ok _ _ h₃)) in
          record {
            expected_chain = ground (arith, throw_if-eq-ok _ _ e);
            address = x;
            owned = checked_address-some ethers run.owner x e₁;
            signed = rw same (checked_address-some ethers run.signer y e₂);
          }
