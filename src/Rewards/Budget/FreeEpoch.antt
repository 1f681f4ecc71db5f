-- ===== src/Rewards/Budget/FreeEpoch.antt =====
-- The epoch that the script selects.
use native.Mathlib.Decide.{ℕ_discrete}
use centry.Prelude.{
  ℕ, zero, suc, ◌+◌, ◌≤◌, ◌<◌, ◌≡◌, ◌≢◌, ◌⊎◌, inl, inr, refl, true, false, Bool-cases, ok, err,
  arith,
}
use centry.Prelude.Text.{text_eq, text_eq_sound, text_eq-differ}
use centry.Rewards.Types.{no_free_epoch}
use centry.Rewards.Budget.{RewardsView, zero_hash, is_free, find_from, find_next_epoch}

-- The contract has neither an active nor a pending root for the epoch.
pub record IsOpen (rewards : RewardsView) (e : ℕ) : Type 0 where
  pub inactive : rewards.epoch_roots e ≡ zero_hash
  pub not_pending : rewards.pending_root e ≡ zero_hash

-- It has one of them.
abbrev pub IsTaken : RewardsView → ℕ → Type 0
IsTaken rewards e = (rewards.epoch_roots e ≢ zero_hash) ⊎ (rewards.pending_root e ≢ zero_hash)

pub is_free-IsOpen : (rewards : RewardsView) (e : ℕ) → is_free rewards e ≡ true → IsOpen rewards e
unfolding is_free
is_free-IsOpen rewards e h =
    let (active, pending) : (text_eq (rewards.epoch_roots e) zero_hash ≡ true)
        × (text_eq (rewards.pending_root e) zero_hash ≡ true) =
      ground arith in
    record {
      inactive = text_eq_sound (rewards.epoch_roots e) zero_hash active;
      not_pending = text_eq_sound (rewards.pending_root e) zero_hash pending;
    }

is_free-IsTaken : (rewards : RewardsView) (e : ℕ) → is_free rewards e ≡ false → IsTaken rewards e
unfolding is_free
is_free-IsTaken rewards e h = elim (Bool-cases (text_eq (rewards.epoch_roots e) zero_hash)) [
  | inl active ↦
      let pending : text_eq (rewards.pending_root e) zero_hash ≡ false = ground arith in
      inr (text_eq-differ (rewards.pending_root e) zero_hash pending)
  | inr active ↦ inl (text_eq-differ (rewards.epoch_roots e) zero_hash active)
]

module _ (rewards : RewardsView) where
  -- Every epoch from `first` up to, and without, `last` is taken.
  abbrev pub AllTaken : ℕ → ℕ → Type 0
  AllTaken first last = (e : ℕ) → first ≤ e → e < last → IsTaken rewards e

  -- `e` is the first open epoch from `first` on.
  pub record IsFirstFree (first e : ℕ) : Type 0 where
    pub from : first ≤ e
    pub free : IsOpen rewards e
    pub skipped : AllTaken first e

  AllTaken-cons :
      (first last : ℕ) → IsTaken rewards first → AllTaken (first + 1) last → AllTaken first last
  AllTaken-cons first last taken rest e h k = elim (ℕ_discrete first e) [
    | yes same ↦ rw (← same) taken
    | no other ↦ rest e (omega arith) (omega arith)
  ]

  find_from_lem :
      (n first : ℕ)
      → ((e : ℕ) × (find_from rewards n first ≡ ok e) × IsFirstFree first e × (e < first + n))
        ⊎ ((find_from rewards n first ≡ err no_free_epoch) × AllTaken first (first + n))
  unfolding find_from
  find_from_lem zero first = inr (refl, λ e h k. absurd (omega arith))
  find_from_lem (suc n) first = elim (Bool-cases (is_free rewards first)) [
    | inl free ↦ inl (
      first,
      rw free,
      record {
        from = omega arith;
        free = is_free-IsOpen rewards first free;
        skipped = λ e h k. absurd (omega arith);
      },
      omega arith,
    )
    | inr taken ↦ elim (find_from_lem n (first + 1)) [
      | inl (e, found, first_free, within) ↦ inl (
        e,
        rw (taken, found),
        record {
          from = omega arith;
          free = first_free.free;
          skipped = AllTaken-cons first e (is_free-IsTaken rewards first taken) first_free.skipped;
        },
        omega arith,
      )
      | inr (failed, none_free) ↦ inr (
        rw (taken, failed),
        λ e h k.
            AllTaken-cons first (first + 1 + n) (is_free-IsTaken rewards first taken) none_free e h
              (omega arith),
      )
    ]
  ]

  -- The search looks at the lookahead + 1 epochs behind the latest active one. It returns the first
  -- of them that has neither an active nor a pending root, if there is one; otherwise it fails, and
  -- each of them has one.
  pub find_next_epoch_lem :
      (lookahead : ℕ)
      → ((e : ℕ) × (find_next_epoch rewards lookahead ≡ ok e)
          × IsFirstFree (rewards.latest_epoch + 1) e
          × (e ≤ rewards.latest_epoch + 1 + lookahead))
        ⊎ ((find_next_epoch rewards lookahead ≡ err no_free_epoch)
            × AllTaken (rewards.latest_epoch + 1) (rewards.latest_epoch + 2 + lookahead))
  unfolding find_next_epoch
  find_next_epoch_lem lookahead = elim (find_from_lem (lookahead + 1) (rewards.latest_epoch + 1)) [
    | inl (e, found, first, within) ↦ inl (e, found, first, omega arith)
    | inr (failed, taken) ↦ inr (failed, λ e h k. taken e h (omega arith))
  ]
