-- ===== src/Org/Founded.antt =====
-- An organization that was created has its projects, its creator as a member, and an administrator.
use theapp.Prelude.{ℕ, ◌≡◌, ap, ◌∙◌, Option, none, some}
use mathlib.Core.Path.{subst₂}
use theapp.Errors.{ok}
use theapp.Action.Laws.{on_error-ok, bind-ok, step-ok, pure-ok, session-ok, check_valid-ok}
use theapp.Permission.{organization_admin_permissions}
use theapp.Session.{Uuid, AuthSession}
use theapp.Pgorg
use theapp.Pgrbac
use theapp.Transactor.{IsAtomic}
use theapp.Rbac.Conv.{permissions_to_pg}
use theapp.Org.Conv.{
  Organization, CreateOrganization, validate_create_organization, create_organization_to_pg,
  organization_from_pg,
}
use theapp.Org.{OrgCore, enroll, found_body, create_organization_for, create_organization}

module _ {W : Type 0} (c : OrgCore W) where
  -- The creator is a member and holds the role of the administrators, which was just created.
  pub record Enrolled (creator_id : Uuid) (org_id : ℕ) (w w' : W) : Type 0 where
    pub admin_role : Pgrbac.CustomRole
    pub at_member : W
    pub at_role : W
    pub member : c.org_storer.add_organization_member creator_id org_id w ≡ (ok tt, at_member)
    pub role_created :
        c.role_bootstrapper_store.create_organization_admin_role org_id
          (permissions_to_pg organization_admin_permissions)
          at_member
        ≡ (ok admin_role, at_role)
    pub assigned :
        c.role_bootstrapper_store.assign_custom_role_to_org creator_id admin_role.external_id org_id
          at_role
        ≡ (ok tt, w')

  -- An organization with its two projects and its creator.
  pub record Founded (co : CreateOrganization) (creator_id : Uuid) (w w' : W)
      (row : Pgorg.Organization) : Type 0 where
    pub default_project : Pgorg.Project
    pub at_org : W
    pub at_project : W
    pub created :
        c.org_storer.create_organization (create_organization_to_pg co) w ≡ (ok row, at_org)
    pub project_created :
        c.org_storer.create_project (record { org_id = row.id; name = co.project_name }) at_org
        ≡ (ok default_project, at_project)
    pub enrolled : Enrolled creator_id row.id at_project w'

  enroll-ok :
      (creator_id : Uuid) (org_id : ℕ) (w w' : W)
      → enroll c (some creator_id) org_id w ≡ (ok tt, w')
      → Enrolled creator_id org_id w w'
  unfolding enroll
  enroll-ok creator_id org_id w w' h =
      let (_, w1, e1, h1) = step-ok _ _ _ w h in
      let (role, w2, e2, h2) = step-ok _ _ _ w1 h1 in
      record {
        admin_role = role;
        at_member = w1;
        at_role = w2;
        member = e1;
        role_created = e2;
        assigned = on_error-ok _ _ w2 h2;
      }

  found_body-ok :
      (co : CreateOrganization) (creator_id : Uuid) (w w' : W) (row : Pgorg.Organization)
      → found_body c co (some creator_id) w ≡ (ok row, w')
      → Founded co creator_id w w' row
  unfolding found_body
  found_body-ok co creator_id w w' row h =
      let (org, w1, e1, h1) = step-ok _ _ _ w h in
      let (project, w2, e2, h2) = step-ok _ _ _ w1 h1 in
      let (_, w3, e3, h3) = bind-ok _ _ w2 h2 in
      let (p, q) = pure-ok org w3 h3 in
      subst₂ (λ x v. Founded co creator_id w v x) p q
        (record {
          default_project = project;
          at_org = w1;
          at_project = w2;
          created = e1;
          project_created = e2;
          enrolled = enroll-ok creator_id org.id w2 w3 e3;
        })

  module _ (atomic : IsAtomic c.transactor) where
    -- An organization that a caller created is valid, and one transaction created it, its default
    -- project, the caller's membership and the administrators' role with the canonical permissions,
    -- and assigned that role to the caller.
    pub founders_administrate :
        (ctx : Option AuthSession) (co : CreateOrganization) (w w' : W) (org : Organization)
        → create_organization c ctx co w ≡ (ok org, w')
        → (sess : AuthSession) × (row : Pgorg.Organization) × (ctx ≡ some sess)
          × (validate_create_organization co ≡ none)
          × (organization_from_pg row ≡ org)
          × (c.transactor.run_tx Pgorg.Organization (found_body c co (some sess.user.user_id)) w
              ≡ (ok row, w'))
          × Founded co sess.user.user_id w w' row
    unfolding create_organization create_organization_for
    founders_administrate ctx co w w' org h =
        let (sess, e, h1) = session-ok ctx _ w h in
        let (v, h2) = check_valid-ok _ _ w (on_error-ok _ _ w h1) in
        let (row, w1, t, h3) = bind-ok _ _ w h2 in
        let (p, q) = pure-ok _ w1 h3 in
        let ran = t ∙ ap (λ x. (ok row, x)) q in
        let body = atomic.returns Pgorg.Organization _ w w' row ran in
        (sess, row, e, v, p, ran, found_body-ok co sess.user.user_id w w' row body)
