-- ===== src/Registry/Control/Invitations.antt =====
-- The invitations of control_plane.rs: a token that makes one subject a member of an organization.
mod Once
mod Runs
use oath.Prelude.{
  ℕ, ◌&&◌, Bool, true, false, not, ltb, if◌then◌else◌, Option, none, some, List, [], ◌∷◌, ◌++◌,
  Text, text_eq, contains_text,
}
use oath.Prelude.Results.{Result, ok, err, ◌>>=◌, ◌>>◌, guard}
use oath.Prelude.Tables.{find, update_where, is_some}
use oath.Core.Policy.{eq_ignore_ascii_case}

pub record Invitation : Type 0 where
  pub token_hash : Text
  pub organization : Text
  pub email : Text
  pub role : Text
  pub expires_at : ℕ
  pub accepted_at : Option ℕ
  pub revoked_at : Option ℕ

pub record Member : Type 0 where
  pub organization : Text
  pub subject : Text
  pub email : Text
  pub role : Text
  pub created_at : ℕ

pub record Members : Type 0 where
  pub organizations : List Text
  pub invitations : List Invitation
  pub members : List Member

pub data InvitationError : Type 0 where
  unique_violation foreign_key_violation email_mismatch : InvitationError

abbrev pub has_token : Text → Invitation → Bool
has_token token_hash i = text_eq i.token_hash token_hash

abbrev pub new_invitation : Text → Text → Text → Text → ℕ → Invitation
new_invitation token_hash organization email role expires_at = record {
  token_hash = token_hash;
  organization = organization;
  email = email;
  role = role;
  expires_at = expires_at;
  accepted_at = none;
  revoked_at = none;
}

-- `INSERT INTO invitations`; the token is unique.
unfoldable pub create_invitation :
    Text → Text → Text → Text → ℕ → Members → Result InvitationError Members
create_invitation token_hash organization email role expires_at m = do
  guard (contains_text m.organizations organization) foreign_key_violation
  guard (not (is_some (find (has_token token_hash) m.invitations))) unique_violation
  ok (record m {
    invitations =
        m.invitations ++ new_invitation token_hash organization email role expires_at ∷ [];
  })

-- `accepted_at IS NULL AND revoked_at IS NULL`
abbrev pub is_pending : Invitation → Bool
is_pending i = not (is_some i.accepted_at) && not (is_some i.revoked_at)

abbrev pub may_revoke : Text → Text → Invitation → Bool
may_revoke token_hash organization i =
    has_token token_hash i && text_eq i.organization organization && is_pending i

unfoldable pub revoke_invitation : ℕ → Text → Text → Members → Bool × Members
revoke_invitation now token_hash organization m = (
  is_some (find (may_revoke token_hash organization) m.invitations),
  record m {
    invitations =
        update_where (may_revoke token_hash organization) (λ i. record i { revoked_at = some now })
          m.invitations;
  },
)

abbrev pub is_open : ℕ → Text → Invitation → Bool
is_open now token_hash i = has_token token_hash i && is_pending i && ltb now i.expires_at

-- `ON CONFLICT (organization,subject) DO UPDATE SET email=…,role=…`
unfoldable pub set_member : Member → List Member → List Member
set_member x [] = x ∷ []
set_member x (m ∷ ms) =
    let rest = set_member x ms in
    if text_eq m.organization x.organization && text_eq m.subject x.subject
    then record m { email = x.email; role = x.role } ∷ ms
    else m ∷ rest

abbrev pub accepted_members : ℕ → Text → Text → Text → Invitation → Members → Members
accepted_members now token_hash subject email i m = record m {
  members =
      set_member
        (record {
          organization = i.organization;
          subject = subject;
          email = email;
          role = i.role;
          created_at = now;
        })
        m.members;
  invitations =
      update_where (has_token token_hash) (λ j. record j { accepted_at = some now }) m.invitations;
}

unfoldable pub accept_found :
    ℕ
    → Text
    → Text
    → Text
    → Option Invitation
    → Members
    → Result InvitationError (Option Invitation × Members)
accept_found now token_hash subject email none m = ok (none, m)
accept_found now token_hash subject email (some i) m = do
  guard (eq_ignore_ascii_case i.email email) email_mismatch
  ok (some i, accepted_members now token_hash subject email i m)

unfoldable pub accept_invitation :
    ℕ → Text → Text → Text → Members → Result InvitationError (Option Invitation × Members)
accept_invitation now token_hash subject email m =
    accept_found now token_hash subject email (find (is_open now token_hash) m.invitations) m

-- `SELECT … WHERE subject=$1 ORDER BY created_at LIMIT 1`: the oldest, the first of those of one age.
unfoldable pub oldest : Text → List Member → Option Member
oldest subject [] = none
oldest subject (m ∷ ms) = elim (oldest subject ms) [
  | none ↦ if text_eq m.subject subject then some m else none
  | some o ↦
      if text_eq m.subject subject && not (ltb o.created_at m.created_at) then some m else some o
]

pub membership : Text → Members → Option (Text × Text)
membership subject m = elim (oldest subject m.members) [
  | none ↦ none
  | some o ↦ some (o.organization, o.role)
]
