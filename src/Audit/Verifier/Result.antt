-- ===== src/Audit/Verifier/Result.antt =====
-- crates/qw-audit/src/verifier.rs: `VerificationResult`, its errors, and the updates of it.
use quanta_watch.Prelude.{ℕ, Text, Bool, true, false, List, [], ◌∷◌, ◌++◌}

-- The outcome of `decode_and_verify`: a verdict, or one of its two errors.
pub data SignatureCheck : Type 0 where
  checked : Bool → SignatureCheck
  bad_base64 verify_error : SignatureCheck

pub data VerifyError : Type 0 where
  content_hash_mismatch : (writer : Text) (sequence : ℕ) → VerifyError
  sequence_gap : (writer : Text) (prev sequence : ℕ) → VerifyError
  genesis_prev_hash : (writer : Text) → VerifyError
  chain_broken : (writer : Text) (sequence : ℕ) → VerifyError
  signature_invalid : (writer : Text) (sequence : ℕ) → VerifyError
  signature_error : (writer : Text) (sequence : ℕ) → SignatureCheck → VerifyError
  checkpoint_hash_mismatch : (seq : ℕ) → VerifyError
  merkle_root_mismatch : (seq : ℕ) → VerifyError
  checkpoint_gap : (prev seq : ℕ) → VerifyError
  checkpoint_broken : (seq : ℕ) → VerifyError
  checkpoint_signature_invalid : (seq : ℕ) → VerifyError
  checkpoint_signature_error : (seq : ℕ) → SignatureCheck → VerifyError
  tip_altered : (seq : ℕ) (writer : Text) (tip : ℕ) → VerifyError
  tip_missing : (seq : ℕ) (writer : Text) (tip : ℕ) → VerifyError

pub record VerificationResult : Type 0 where
  pub valid : Bool
  pub entries_checked : ℕ
  pub signatures_valid : ℕ
  pub chain_intact : Bool
  pub merkle_roots_valid : ℕ
  pub errors : List VerifyError
  pub writers_checked : ℕ
  pub checkpoints_checked : ℕ

abbrev pub clean_result : VerificationResult
clean_result = record {
  valid = true;
  entries_checked = 0;
  signatures_valid = 0;
  chain_intact = true;
  merkle_roots_valid = 0;
  errors = [];
  writers_checked = 0;
  checkpoints_checked = 0;
}

abbrev pub fail : VerifyError → VerificationResult → VerificationResult
fail e r = record r { valid = false; errors = r.errors ++ e ∷ [] }

-- A failure that breaks a chain too.
abbrev pub fail_chain : VerifyError → VerificationResult → VerificationResult
fail_chain e r = record r { valid = false; chain_intact = false; errors = r.errors ++ e ∷ [] }
