-- ===== src/Server/Tables.antt =====
-- The tables of backend/internal/api/grpc/server.go agree with each other.
use theapp.Prelude.{
  String, Bool, true, false, not, ◌&&◌, ◌||◌, Option, none, some, ◌≡◌, contains, string_comparable,
  arith, refl,
}
use theapp.Set.{has}
use theapp.Slices.{all, all_sound, contains_func}
use theapp.Server.{
  public_methods, no_project_methods, system_control_project_methods, org_control_project_methods,
  permission_registry, registered, org_scoped_permissions, method_requires_organization_scope,
}

abbrev pub is_some {ℓ} : {A : Type ℓ} → Option A → Bool
is_some none = false
is_some (some a) = true

unfoldable needs_no_project : String → Bool
needs_no_project m =
    not (method_requires_organization_scope m)
    && not (has system_control_project_methods m)
    && not (has org_control_project_methods m)

projectless_pass : all no_project_methods.entries needs_no_project ≡ true
unfolding all contains_func has contains no_project_methods needs_no_project
    method_requires_organization_scope system_control_project_methods org_control_project_methods
    permission_registry registered org_scoped_permissions
projectless_pass = refl

-- A method without a project asks for no permission at organization scope and is bound to no
-- control project: the project that the interceptors would look up for it is not there.
pub projectless_methods :
    (method : String)
    → has no_project_methods method ≡ true
    → (method_requires_organization_scope method ≡ false)
      × (has system_control_project_methods method ≡ false)
      × (has org_control_project_methods method ≡ false)
unfolding has needs_no_project
projectless_methods method h =
    ground (arith, all_sound no_project_methods.entries needs_no_project method projectless_pass h)

unfoldable is_protected : String → Bool
is_protected m = is_some (registered permission_registry m) && not (has public_methods m)

no_project_protected : all no_project_methods.entries is_protected ≡ true
unfolding all has contains no_project_methods is_protected permission_registry registered
    public_methods
no_project_protected = refl

system_protected : all system_control_project_methods.entries is_protected ≡ true
unfolding all has contains system_control_project_methods is_protected permission_registry
    registered public_methods
system_protected = refl

org_protected : all org_control_project_methods.entries is_protected ≡ true
unfolding all has contains org_control_project_methods is_protected permission_registry registered
    public_methods
org_protected = refl

public_pass :
    all public_methods.entries (λ m. not (is_some (registered permission_registry m))) ≡ true
unfolding all public_methods permission_registry registered
public_pass = refl

-- A method of one of the three tables of protected methods is registered and not public.
pub protected_methods :
    (method : String)
    → (has no_project_methods method
        || has system_control_project_methods method
        || has org_control_project_methods method)
      ≡ true
    → (is_some (registered permission_registry method) ≡ true) × (has public_methods method ≡ false)
unfolding has is_protected
protected_methods method h = ground (
  arith,
  all_sound no_project_methods.entries is_protected method no_project_protected,
  all_sound system_control_project_methods.entries is_protected method system_protected,
  all_sound org_control_project_methods.entries is_protected method org_protected,
)

-- No public method is registered.
pub public_methods_ask_nothing :
    (method : String)
    → has public_methods method ≡ true
    → is_some (registered permission_registry method) ≡ false
unfolding has
public_methods_ask_nothing method h =
    ground (arith, all_sound public_methods.entries _ method public_pass h)
