-- ===== src/Grpc/RolePages.antt =====
-- backend/internal/api/grpc/custom_role.go: the handlers of the role service that page, with their
-- validation in internal/validate/custom_role.go.
pub mod Laws
pub mod Followed
pub mod Stored
mod Examples
use theapp.Prelude.{ℕ, String, Option, none, some, List, [], ◌∷◌, leb, if◌then◌else◌}
use theapp.Errors.{Error, is, message, wrapped, status, both, not_found}
use theapp.Status
use theapp.Action.{Action, ◌>>=◌, ◌>>◌, ◌on_error◌, pure, fail, or_panic, panic, done}
use theapp.Session.{Uuid, AuthSession}
use theapp.Role
use theapp.Grpc.{RoleOutput, ListRolesRequest, ListAssignmentsRequest, ListRolesResponse, Uuids}
use theapp.Grpc.Permissions.{cons_both}
use theapp.Grpc.RoleConv.{custom_role_to_pb}
use theapp.Grpc.PageToken.{
  PageToken, Wire, encode_page_token, decode_page_token, page_size_of, next_offset, int_ltb,
}
use theapp.Grpc.RoleService.{CustomRoleCore, check_request, or_fail}
use theapp.Grpc.Validate.{refused, valid_uuid, or_next}

-- CustomRolesToPB
unfoldable pub custom_roles_to_pb : Uuids → List Role.CustomRole → Option (List RoleOutput)
unfolding custom_role_to_pb
custom_roles_to_pb uuid [] = some []
custom_roles_to_pb uuid (r ∷ rs) = cons_both (custom_role_to_pb uuid r) (custom_roles_to_pb uuid rs)

-- mustconv.Int32, of a count
abbrev pub must_int32 : ℕ → Option ℕ
must_int32 n = if leb n 0x7fffffff then some n else none

abbrev response : Option (List RoleOutput) → Option ℕ → String → Option ListRolesResponse
response (some roles) (some total) token =
    some (record { roles = roles; total_size = total; next_page_token = token })
response _ _ _ = none

-- The statuses of the two calls that look for a user.
abbrev pub assignments_error : String → Error → Error
assignments_error m e = if is e not_found then status Status.not_found else wrapped m e

-- validEmptyPageToken, on the decoded token
abbrev pub valid_token : {A : Type 0} → Option A → Option Error
valid_token none = refused
valid_token (some _) = none

-- emptypb.Empty has one value.
module _ (uuid : Uuids) (wire : Wire Unit) where
  -- ListRoles
  unfoldable pub validate_list_roles : Option ListRolesRequest → Option Error
  unfolding decode_page_token
  validate_list_roles none = refused
  validate_list_roles (some req) = valid_token (decode_page_token wire req.page_token)

  -- ListProjectRoleAssignments and ListOrganizationRoleAssignments, by roleAssignments
  unfoldable pub validate_list_assignments : Option ListAssignmentsRequest → Option Error
  unfolding decode_page_token
  validate_list_assignments none = refused
  validate_list_assignments (some req) =
      or_next (valid_uuid (uuid.parse req.user_id))
        (valid_token (decode_page_token wire req.page_token))

  module _ {W : Type 0} (core : CustomRoleCore W) (ctx : Option AuthSession) where
    -- fmt.Errorf("%w: %w", status.Error(codes.InvalidArgument, "invalid page_token"), err)
    abbrev token_of : String → Action W (PageToken Unit)
    token_of token =
        or_fail (both (status Status.invalid_argument) (message "decode page token"))
          (decode_page_token wire token)

    abbrev next_token : ℕ → ℕ → Action W String
    next_token next total =
        if int_ltb next total
        then or_fail (wrapped "encode next_page_token" (message "marshal"))
            (encode_page_token wire next "" tt)
        else pure ""

    -- What the three handlers do with a page.
    abbrev answer_page : ℕ → ℕ → List Role.CustomRole × ℕ → Action W ListRolesResponse
    answer_page size offset (roles, total) = do
      token ← next_token (next_offset offset size) total
      or_panic (response (custom_roles_to_pb uuid roles) (must_int32 total) token)

    abbrev list_roles_of : Option ListRolesRequest → Action W ListRolesResponse
    list_roles_of none = panic
    list_roles_of (some req) = do
      pt ← token_of req.page_token
      found ←
          core.custom_roles ctx (page_size_of req.page_size) pt.offset on_error wrapped "list roles"
      answer_page (page_size_of req.page_size) pt.offset found

    -- ListRoles
    unfoldable pub list_roles : Option ListRolesRequest → Action W ListRolesResponse
    unfolding validate_list_roles decode_page_token encode_page_token page_size_of
        custom_roles_to_pb
    list_roles req =
        check_request "validate list roles request" (validate_list_roles req) >> list_roles_of req

    abbrev list_user_roles :
        String
        → (Uuid → ℕ → ℕ → Action W (List Role.CustomRole × ℕ))
        → ListAssignmentsRequest
        → Action W ListRolesResponse
    list_user_roles m user_roles req = do
      user_id ← or_panic (uuid.parse req.user_id)
      pt ← token_of req.page_token
      found ← user_roles user_id (page_size_of req.page_size) pt.offset on_error assignments_error m
      answer_page (page_size_of req.page_size) pt.offset found

    abbrev list_assignments_of :
        String
        → (Uuid → ℕ → ℕ → Action W (List Role.CustomRole × ℕ))
        → Option ListAssignmentsRequest
        → Action W ListRolesResponse
    list_assignments_of m user_roles none = panic
    list_assignments_of m user_roles (some req) = list_user_roles m user_roles req

    -- ListProjectRoleAssignments
    unfoldable pub list_project_role_assignments :
        Option ListAssignmentsRequest → Action W ListRolesResponse
    unfolding validate_list_assignments decode_page_token encode_page_token page_size_of
        custom_roles_to_pb
    list_project_role_assignments req =
        check_request "validate list project role assignments request"
          (validate_list_assignments req)
        >> list_assignments_of "list project role assignments" (core.user_project_custom_roles ctx)
            req

    -- ListOrganizationRoleAssignments
    unfoldable pub list_organization_role_assignments :
        Option ListAssignmentsRequest → Action W ListRolesResponse
    unfolding validate_list_assignments decode_page_token encode_page_token page_size_of
        custom_roles_to_pb
    list_organization_role_assignments req =
        check_request "validate list organization role assignments request"
          (validate_list_assignments req)
        >> list_assignments_of "list organization role assignments" (core.user_org_custom_roles ctx)
            req
