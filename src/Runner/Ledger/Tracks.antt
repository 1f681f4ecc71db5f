-- ===== src/Runner/Ledger/Tracks.antt =====
-- What the loop's maps say of the ledger that the calls so far lead to.
use centry.Prelude.{ℕ, ◌-◌, ◌≤◌, ◌≡◌, refl, ◌∙◌, false, none, some, All, ltb, arith}
use centry.Prelude.Text.{Text, text_eq, text_eq_iff}
use centry.Prelude.Assoc.{lookup, lookup-insert, insert-All}
use centry.Runner.Values.{Payload}
use centry.Runner.Batch.{Call, Batch, pair_key, push, set_allowance, track_cleanup}
use centry.Runner.Ledger.{
  Ledger, put, spend, run_payload, run_calls, approves_payload, approves, run_calls_push,
  approves_push,
}

-- An entry of `cleanupApprovals` stands under its own key.
abbrev pub IsKeyed : Text × (Text × Text) → Type 0
IsKeyed (k, (token, spender)) = pair_key token spender ≡ k

-- From the ledger `before` the calls run, and lead to `ledger`, of which the batch knows the
-- allowances of its map; the others are as before. Where no approval is to be reset, none was made,
-- and the allowance has not grown.
pub record Tracks (before : Ledger) (b : Batch) (ledger : Ledger) : Type 0 where
  pub runs : run_calls b.calls before ≡ some ledger
  pub known : (k : Text) (n : ℕ) → lookup k b.allowances ≡ some n → ledger k ≡ n
  pub fresh : (k : Text) → lookup k b.allowances ≡ none → ledger k ≡ before k
  pub not_raised : (k : Text) → lookup k b.cleanup ≡ none → ledger k ≤ before k
  pub unapproved : (k : Text) → lookup k b.cleanup ≡ none → approves k b.calls ≡ false
  pub keyed : All IsKeyed b.cleanup

module _ (before : Ledger) (b : Batch) (ledger : Ledger) (t : Tracks before b ledger) where
  -- A call that neither spends nor approves.
  pub push-Tracks :
      (c : Call)
      → run_payload ledger c.target c.payload ≡ some ledger
      → ((k : Text) → approves_payload k c.target c.payload ≡ false)
      → Tracks before (push b c) ledger
  unfolding push
  push-Tracks c neutral silent = record {
    runs = run_calls_push b.calls c before ledger t.runs ∙ neutral;
    known = t.known;
    fresh = t.fresh;
    not_raised = t.not_raised;
    unapproved = λ k h. ground (arith, approves_push k b.calls c, silent k, t.unapproved k h);
    keyed = t.keyed;
  }

  -- An approval, with its amount in the map and its place among the approvals to be reset.
  pub approve-Tracks :
      (c : Call) (token spender : Text) (amount : ℕ)
      → pair_key c.target spender ≡ pair_key token spender
      → c.payload ≡ Payload.approve spender amount
      → Tracks before
          (set_allowance (track_cleanup (push b c) token spender) token spender amount)
          (put ledger (pair_key token spender) amount)
  unfolding push set_allowance track_cleanup run_payload approves_payload
  approve-Tracks c token spender amount same payload =
      let key = pair_key token spender in
      let effect : run_payload ledger c.target c.payload ≡ some (put ledger key amount) =
        rw (payload, run_payload) (rw same) in
      let approved : (k : Text) → approves_payload k c.target c.payload ≡ text_eq key k =
        λ k. rw (payload, approves_payload) (rw same) in
      record {
        runs = run_calls_push b.calls c before ledger t.runs ∙ effect;
        known = λ k n h. ground (arith, lookup-insert key k amount b.allowances, t.known k n);
        fresh = λ k h. ground (arith, lookup-insert key k amount b.allowances, t.fresh k);
        not_raised =
            λ k h. ground (arith, lookup-insert key k (token, spender) b.cleanup, t.not_raised k);
        unapproved = λ k h. ground (
          arith,
          approves_push k b.calls c,
          approved k,
          lookup-insert key k (token, spender) b.cleanup,
          t.unapproved k,
        );
        keyed = insert-All IsKeyed key (token, spender) b.cleanup t.keyed refl;
      }

  -- A call that spends an allowance which the ledger has, with the rest in the map.
  pub spend-Tracks :
      (c : Call) (token spender : Text) (n amount : ℕ)
      → ledger (pair_key token spender) ≡ n
      → amount ≤ n
      → run_payload ledger c.target c.payload ≡ spend ledger (pair_key token spender) amount
      → ((k : Text) → approves_payload k c.target c.payload ≡ false)
      → Tracks before
          (push (set_allowance b token spender (n - amount)) c)
          (put ledger (pair_key token spender) (n - amount))
  unfolding push set_allowance
  spend-Tracks c token spender n amount has enough spends silent =
      let key = pair_key token spender in
      let covered : ltb n amount ≡ false = ground arith in
      let spent : spend ledger key amount ≡ some (put ledger key (n - amount)) =
        rw (has, covered) in
      record {
        runs = run_calls_push b.calls c before ledger t.runs ∙ spends ∙ spent;
        known = λ k m h. ground (arith, lookup-insert key k (n - amount) b.allowances, t.known k m);
        fresh = λ k h. ground (arith, lookup-insert key k (n - amount) b.allowances, t.fresh k);
        not_raised = λ k h. ground (arith, text_eq_iff key k, t.not_raised k h);
        unapproved = λ k h. ground (arith, approves_push k b.calls c, silent k, t.unapproved k h);
        keyed = t.keyed;
      }
