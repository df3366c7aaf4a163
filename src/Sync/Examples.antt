-- ===== src/Sync/Examples.antt =====
-- The theorems on src/shared/jsonl-sync.ts at short texts, with a length as a stand-in for the hash.
use pipane.Base.{ℕ, ◌≡◌, refl, inl, some, List, [], ◌∷◌, length}
use pipane.Sync.Patch.{Text, compute_patches, apply_patch, apply_patches}
use pipane.Sync.Op.{SyncOp, full, delta, compute_sync_op, apply_sync_op, apply_sync_ops}
use pipane.Sync.RoundTrip.{apply-compute_patches}
use pipane.Sync.Batch.{
  version, apply-compute_sync_op, ops_between, apply-ops_between, apply_each, apply_sync_ops-each,
  sync_verified,
}

abbrev measure : Text → ℕ
measure text = length text

abbrev first_text : Text
first_text = 1 ∷ 2 ∷ 3 ∷ []

abbrev second_text : Text
second_text = 1 ∷ 5 ∷ 6 ∷ 3 ∷ []

-- Two operations, a whole text and a change of it.
abbrev two_ops : List SyncOp
two_ops =
    full first_text 3
    ∷ delta (record { offset = 1; delete_count = 1; insert = 5 ∷ 6 ∷ [] } ∷ []) 4 3
    ∷ []

apply-compute_patches_example :
    apply_patches first_text (compute_patches first_text second_text) ≡ second_text
apply-compute_patches_example = apply-compute_patches first_text second_text

apply-compute_sync_op_example :
    apply_sync_op measure (version measure first_text) (compute_sync_op first_text second_text 3 4)
    ≡ some (version measure second_text)
apply-compute_sync_op_example = apply-compute_sync_op measure first_text second_text

apply-ops_between_example :
    apply_sync_ops measure
      (version measure first_text)
      (ops_between measure first_text (second_text ∷ first_text ∷ []))
    ≡ some (version measure first_text)
apply-ops_between_example = apply-ops_between measure first_text (second_text ∷ first_text ∷ [])

each_applied : apply_each measure (version measure []) two_ops ≡ some (version measure second_text)
unfolding apply_each apply_sync_op apply_patches apply_patch
each_applied = refl

apply_sync_ops-each_example :
    apply_sync_ops measure (version measure []) two_ops ≡ some (version measure second_text)
apply_sync_ops-each_example =
    apply_sync_ops-each measure (version measure []) (version measure second_text) two_ops refl
      each_applied

whole_applied :
    apply_sync_op measure (version measure []) (full first_text 3)
    ≡ some (version measure first_text)
unfolding apply_sync_op
whole_applied = refl

sync_verified_example : measure first_text ≡ 3
sync_verified_example =
    sync_verified measure (version measure []) (version measure first_text) (full first_text 3) []
      (inl whole_applied)
