-- ===== src/Status.antt =====
-- The codes of google.golang.org/grpc/codes that an error can carry, and codeToLevel of
-- backend/internal/api/grpc/unary_interceptors.go. codes.OK is none: status.Error gives nil for it.

pub data GrpcCode : Type 0 where
  canceled unknown invalid_argument deadline_exceeded not_found already_exists : GrpcCode
  permission_denied resource_exhausted failed_precondition aborted out_of_range : GrpcCode
  unimplemented internal unavailable data_loss unauthenticated : GrpcCode

-- The levels of log/slog that the server uses.
pub data Level : Type 0 where
  level_info level_warn level_error : Level

unfoldable pub code_to_level : GrpcCode → Level
code_to_level not_found = level_info
code_to_level already_exists = level_info
code_to_level canceled = level_info
code_to_level invalid_argument = level_warn
code_to_level failed_precondition = level_warn
code_to_level permission_denied = level_warn
code_to_level unauthenticated = level_warn
code_to_level aborted = level_warn
code_to_level out_of_range = level_warn
code_to_level deadline_exceeded = level_warn
code_to_level unknown = level_error
code_to_level resource_exhausted = level_error
code_to_level unimplemented = level_error
code_to_level internal = level_error
code_to_level unavailable = level_error
code_to_level data_loss = level_error
