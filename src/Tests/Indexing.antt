-- ===== src/Tests/Indexing.antt =====
-- Policies, batches and retries.
use Prim.Native.Nat.{min}
use bluge.Base.{ℕ, ◌*◌, ◌^◌, ◌≡◌, refl, false, List, [], ◌∷◌, All, arith}
use bluge.Index.Deletion.{
  Snapshot, item_kind_snapshot, item_kind_segment, KeepNLatest, new_keep_n_latest, commit, cleanup,
}
use bluge.Index.Deletion.Histories.{History, start, committed, latest}
use bluge.Index.Deletion.Kept.{is_needed, cleanup-is_needed}
use bluge.Index.Retry.{new_background_retry, fail_all, reset, fail_all-delay}
use bluge.Index.Batch.{
  Call, insert_call, update_call, delete_call, new_batch, run, IsConsistent, run-IsConsistent,
}

abbrev first : Snapshot
first = record { epoch = 1; segment = 10 ∷ 11 ∷ [] }

abbrev second : Snapshot
second = record { epoch = 2; segment = 11 ∷ 12 ∷ [] }

abbrev policy : KeepNLatest
policy = commit (commit (new_keep_n_latest 1) first) second

policy-History : History 1 (first ∷ second ∷ []) policy
policy-History = committed second refl (committed first refl start)

-- The older snapshot goes and the segment that only it needed.
cleaned_up :
    (cleanup (λ item. false) policy).1
    ≡ record { kind = item_kind_snapshot; id = 1 }
      ∷ record { kind = item_kind_segment; id = 10 }
      ∷ []
unfolding cleanup commit
cleaned_up = refl

cleanup-is_needed_example :
    All
      (λ item. is_needed (latest 1 (first ∷ second ∷ [])) item ≡ false)
      (cleanup (λ item. false) policy).1
cleanup-is_needed_example =
    cleanup-is_needed 1 (first ∷ second ∷ []) policy (λ item. false) policy-History

fail_all-delay_example :
    (fail_all
      (reset (new_background_retry {E = ℕ} 1000 60_000))
      (([], 1) ∷ ([], 2) ∷ ([], 3) ∷ [])).delay
    ≡ min (1000 * 2 ^ 2) 60_000
fail_all-delay_example =
    fail_all-delay (new_background_retry 1000 60_000) ([], 1) (([], 2) ∷ ([], 3) ∷ []) (omega arith)
      (omega arith) (omega arith)

abbrev calls : List (Call ℕ ℕ ℕ)
calls = insert_call 7 ∷ update_call 1 8 ∷ delete_call 2 ∷ []

run-IsConsistent_example : IsConsistent (run new_batch calls)
run-IsConsistent_example = run-IsConsistent new_batch calls (refl, refl)
