-- ===== src/Registry/Control/Invitations/Runs.antt =====
-- An invitation of one organization.
use oath.Prelude.{◌≡◌, refl, none, some, [], ◌∷◌, codes, text_eq}
use oath.Prelude.Results.{ok}
use oath.Prelude.Tables.{find}
use oath.Core.Policy.{eq_ignore_ascii_case}
use oath.Registry.Control.Invitations.{
  Invitation, Members, new_invitation, accept_found, accept_invitation, accepted_members,
}
use oath.Registry.Control.Invitations.Once.{revoke, requests, accept_invitation-once}

abbrev offer : Invitation
offer = new_invitation (codes "t") (codes "acme") (codes "a@x") (codes "publisher") 90

abbrev invited : Members
invited = record { organizations = codes "acme" ∷ []; invitations = offer ∷ []; members = [] }

abbrev joined : Members
joined = accepted_members 10 (codes "t") (codes "ann") (codes "A@x") offer invited

accept_run :
    accept_invitation 10 (codes "t") (codes "ann") (codes "A@x") invited ≡ ok (some offer, joined)
unfolding accept_invitation accept_found find text_eq eq_ignore_ascii_case
accept_run = refl

accept_invitation-once_example :
    accept_invitation 20
      (codes "t")
      (codes "bob")
      (codes "a@x")
      (requests (revoke 15 (codes "t") (codes "acme") ∷ []) joined)
    ≡ ok (none, requests (revoke 15 (codes "t") (codes "acme") ∷ []) joined)
accept_invitation-once_example =
    accept_invitation-once 10 20 (codes "t") (codes "ann") (codes "bob") (codes "A@x") (codes "a@x")
      invited joined offer (revoke 15 (codes "t") (codes "acme") ∷ []) accept_run
