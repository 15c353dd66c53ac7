-- ===== src/Examples/Memories.antt =====
-- Runs of internal/core/trust on concrete inputs.
use open_delo.Prelude.{◌≡◌, refl}
use open_delo.Prelude.Int.{pos}
use open_delo.Platform.AppError.{ok}
use open_delo.Risk.Level.{low, is_high, is_low, is_medium}
use open_delo.Scope.Dimensions.{
  valid_environment, level_rank, valid_level, dimension_checks, check_dimensions, validate,
  is_valid, has_wildcard, same_resource, same_names, covers, covers_ignoring_window,
}
use open_delo.Approval.Items.{Behavior}
use open_delo.Lease.Manager.{wrapped}
use open_delo.Trust.Manager.{
  GenerateRequest, known_behavior, check_generate, memory_of, encode_learned, generated,
}
use open_delo.Trust.Convergence.{Converged, generated-Converged}
use open_delo.Examples.Samples.{read_scope}
use open_delo.Examples.Leases.{sample_codec}

-- The read that was approved is to be learned as it is.
abbrev learn_read : GenerateRequest
learn_read = record {
  approved = read_scope;
  learned = read_scope;
  approval_id = "approval-1";
  risk_level = low;
  behavior = Behavior.auto_allow;
  ttl = pos 0;
}

memory_made :
    generated sample_codec (ok "memory-1") 100 learn_read
    ≡ ok (memory_of "memory-1" ("read", "names") 100 learn_read)
unfolding generated check_generate encode_learned wrapped validate check_dimensions dimension_checks
    valid_environment valid_level level_rank covers covers_ignoring_window is_high is_low is_medium
    known_behavior is_valid has_wildcard same_names same_resource
memory_made = refl

generated-Converged_example :
    Converged sample_codec 100 learn_read (memory_of "memory-1" ("read", "names") 100 learn_read)
generated-Converged_example =
    generated-Converged sample_codec (ok "memory-1") 100 learn_read
      (memory_of "memory-1" ("read", "names") 100 learn_read) memory_made
