-- ===== src/Org/Members.antt =====
-- A user who was added to an organization.
use theapp.Prelude.{ℕ, String, ◌≡◌, ap, ◌∙◌, Option, none}
use mathlib.Core.Path.{subst₂}
use theapp.Errors.{ok}
use theapp.Action.Laws.{step-ok, pure-ok, session-ok, project-ok, check_valid-ok}
use theapp.Session.{AuthSession}
use theapp.Pguser
use theapp.Transactor.{IsAtomic}
use theapp.Rbac.Grants.Request.{Selected}
use theapp.Org.Conv.{User, validate_create_organization_user, user_from_pg}
use theapp.Org.{OrgCore, join_body, create_organization_user}

module _ {W : Type 0} (c : OrgCore W) where
  -- The user with this address, found or created, is a member.
  pub record Joined (org_id : ℕ) (address : String) (w w' : W) (row : Pguser.User) : Type 0 where
    pub at_user : W
    pub found : c.org_user_store.get_or_create_user_by_email address w ≡ (ok row, at_user)
    pub member :
        c.org_storer.ensure_organization_member row.external_id org_id at_user ≡ (ok tt, w')

  join_body-ok :
      (org_id : ℕ) (address : String) (w w' : W) (row : Pguser.User)
      → join_body c org_id address w ≡ (ok row, w')
      → Joined org_id address w w' row
  unfolding join_body
  join_body-ok org_id address w w' row h =
      let (user, w1, e1, h1) = step-ok _ _ _ w h in
      let (_, w2, e2, h2) = step-ok _ _ _ w1 h1 in
      let (p, q) = pure-ok user w2 h2 in
      subst₂ (λ x v. Joined org_id address w v x) p q
        (record { at_user = w1; found = e1; member = e2 })

  -- A user who was added joins the organization of the selected project, in one transaction, and is
  -- found or created by the address exactly as it was given, which is valid.
  pub members_join_by_given_address :
      (atomic : IsAtomic c.transactor) (ctx : Option AuthSession) (address : String) (w w' : W)
      (u : User)
      → create_organization_user c ctx address w ≡ (ok u, w')
      → (s : Selected ctx) × (row : Pguser.User) × (validate_create_organization_user
            c.parse_address address
          ≡ none)
        × (c.transactor.run_tx Pguser.User (join_body c s.selected.org_id address) w ≡ (ok row, w'))
        × Joined s.selected.org_id address w w' row
        × (user_from_pg row ≡ u)
  unfolding create_organization_user
  members_join_by_given_address atomic ctx address w w' u h =
      let (v, h0) = check_valid-ok _ _ w h in
      let (sess, e, h1) = session-ok ctx _ w h0 in
      let (selected, f, h2) = project-ok _ _ w h1 in
      let (row, w1, t, h3) = step-ok _ _ _ w h2 in
      let (p, q) = pure-ok _ w1 h3 in
      let ran = t ∙ ap (λ x. (ok row, x)) q in
      let body = atomic.returns Pguser.User _ w w' row ran in
      (
        record { sess = sess; selected = selected; has_session = e; has_project = f },
        row,
        v,
        ran,
        join_body-ok selected.org_id address w w' row body,
        p,
      )
