-- ===== src/Patch/Hunks.antt =====
-- The data of internal/applets/editors/patch/parse.go, and its errors.
use mimixbox.Prelude.{ℕ, List, Bytes}
use mimixbox.Golang.Int.{ℤ}

-- One block of a unified diff; each of its lines begins with ' ', '-' or '+'.
pub record Hunk : Type 0 where
  pub old_start : ℤ
  pub old_len : ℤ
  pub new_start : ℤ
  pub new_len : ℤ
  pub lines : List Bytes

pub record FilePatch : Type 0 where
  pub old_name : Bytes
  pub new_name : Bytes
  pub hunks : List Hunk

-- The errors, with the number in the message; `out_of_range` is a panic of the Go runtime.
pub data PatchError : Type 0 where
  malformed_header : ℕ → PatchError
  hunk_before_header : PatchError
  bad_hunk_header : Bytes → PatchError
  bad_number : PatchError
  start_beyond_end : ℤ → PatchError
  context_mismatch : ℕ → PatchError
  delete_mismatch : ℕ → PatchError
  out_of_range : PatchError
