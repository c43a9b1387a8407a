-- ===== src/Registry/Control/Invitations/Once.antt =====
-- An invitation is accepted at most once.
use oath.Prelude.{
  All, ℕ, ◌≡◌, refl, sym, ap, ◌∙◌, ◌⊎◌, inl, inr, ◌&&◌, Bool, true, false, not, ltb, if◌then◌else◌,
  Option, none, some, List, [], ◌∷◌, ◌++◌, Text, text_eq_iff, contains_text, Bool-cases, &&-eq-true,
}
use oath.Prelude.Results.{Result, ok, err, guard-eq-ok, ok_injective}
use oath.Prelude.Tables.{
  find, updated, find-append, find-update_where, All-of, find-All_none, find-weaker, update_where,
  is_some, All-append, All-update_where, All-map,
}
use oath.Registry.Control.Effects.{some_of}
use oath.Registry.Control.History.{absurd_test}
use oath.Core.Policy.{eq_ignore_ascii_case}
use oath.Registry.Control.Invitations.{
  Invitation, Members, InvitationError, has_token, new_invitation, create_invitation, is_pending,
  may_revoke, revoke_invitation, is_open, accept_found, accept_invitation,
}

-- What is asked of the table.
pub data Request : Type 0 where
  create : (token_hash organization email role : Text) (expires_at : ℕ) → Request
  revoke : (now : ℕ) (token_hash organization : Text) → Request
  accept : (now : ℕ) (token_hash subject email : Text) → Request

abbrev after {ℓ} : {A : Type ℓ} → (A → Members) → Result InvitationError A → Members → Members
after f (ok a) m = f a
after f (err e) m = m

-- A request that fails leaves the table as it is.
pub request : Request → Members → Members
request (create token_hash organization email role expires_at) m =
    after (λ x. x) (create_invitation token_hash organization email role expires_at m) m
request (revoke now token_hash organization) m = (revoke_invitation now token_hash organization m).1
request (accept now token_hash subject email) m =
    after (λ x. x.1) (accept_invitation now token_hash subject email m) m

pub requests : List Request → Members → Members
requests [] m = m
requests (q ∷ qs) m = requests qs (request q m)

abbrev Used : Text → Invitation → Type 0
Used token i = has_token token i ≡ true → is_some i.accepted_at ≡ true

-- An invitation of the token is there, and all of them are accepted.
record IsUsed (token : Text) (invitations : List Invitation) : Type 0 where
  there : is_some (find (has_token token) invitations) ≡ true
  used : All (Used token) invitations

-- A change of rows that keeps the token.
abbrev KeepsToken : (Invitation → Invitation) → Type 0
KeepsToken f = (i : Invitation) → (f i).token_hash ≡ i.token_hash

is_some-updated :
    (q : Invitation → Bool) (f : Invitation → Invitation) (o : Option Invitation)
    → is_some o ≡ true
    → is_some (updated q f o) ≡ true
is_some-updated q f none h = h
is_some-updated q f (some i) h = refl

Used-if :
    (token : Text) (test : Bool) (f : Invitation → Invitation) (i : Invitation)
    → Used token i
    → Used token (f i)
    → Used token (if test then f i else i)
Used-if token true f i h k = k
Used-if token false f i h k = h

update-IsUsed :
    (q : Invitation → Bool) (f : Invitation → Invitation) (token : Text)
    (invitations : List Invitation)
    → KeepsToken f
    → ((i : Invitation) → is_some i.accepted_at ≡ true → is_some (f i).accepted_at ≡ true)
    → IsUsed token invitations
    → IsUsed token (update_where q f invitations)
update-IsUsed q f token invitations k a h = record {
  there =
      rw (find-update_where (has_token token) q f invitations (λ i. rw (k i) refl))
        (is_some-updated q f (find (has_token token) invitations) h.there);
  used =
      All-update_where (Used token) (Used token) q f invitations
        (λ i u. Used-if token (q i) f i u (λ e. a i (u (rw (k i) at e)))) h.used;
}

Result-cases :
    {A : Type 0} (r : Result InvitationError A)
    → ((a : A) × (r ≡ ok a)) ⊎ ((e : InvitationError) × (r ≡ err e))
Result-cases (ok a) = inl (a, refl)
Result-cases (err e) = inr (e, refl)

append-IsUsed :
    (token : Text) (invitations : List Invitation) (i : Invitation)
    → not (is_some (find (has_token i.token_hash) invitations)) ≡ true
    → IsUsed token invitations
    → IsUsed token (invitations ++ i ∷ [])
append-IsUsed token invitations i n h =
    let (x, e) = some_of _ h.there in
    record {
      there = rw (find-append (has_token token) invitations (i ∷ []) x e) refl;
      used = All-append (Used token) invitations i h.used (λ t.
          let same = (text_eq_iff i.token_hash token).0 t in
          let c = ap (λ u. not (is_some (find (has_token u) invitations))) (sym same) ∙ n in
          absurd_test (sym (ap not h.there) ∙ c));
    }

create_invitation-IsUsed :
    (token_hash organization email role : Text) (expires_at : ℕ) (token : Text) (m out : Members)
    → create_invitation token_hash organization email role expires_at m ≡ ok out
    → IsUsed token m.invitations
    → IsUsed token out.invitations
unfolding create_invitation
create_invitation-IsUsed token_hash organization email role expires_at token m out e h =
    let (_, e1) = guard-eq-ok (contains_text m.organizations organization) _ _ e in
    let (n, e2) = guard-eq-ok (not (is_some (find (has_token token_hash) m.invitations))) _ _ e1 in
    let same = ok_injective e2 in
    rw (sym same) (
      append-IsUsed token m.invitations
        (new_invitation token_hash organization email role expires_at) n h)

accept_found-IsUsed :
    (now : ℕ) (token_hash subject email token : Text) (o : Option Invitation) (m : Members)
    (a : Option Invitation × Members)
    → accept_found now token_hash subject email o m ≡ ok a
    → IsUsed token m.invitations
    → IsUsed token a.1.invitations
unfolding accept_found
accept_found-IsUsed now token_hash subject email token none m a e h = rw (sym (ok_injective e)) h
accept_found-IsUsed now token_hash subject email token (some i) m a e h =
    let (_, k) = guard-eq-ok (eq_ignore_ascii_case i.email email) _ _ e in
    rw (sym (ok_injective k))
      (update-IsUsed (has_token token_hash) _ token m.invitations (λ j. refl) (λ j u. refl) h)

request-IsUsed :
    (q : Request) (token : Text) (m : Members)
    → IsUsed token m.invitations
    → IsUsed token (request q m).invitations
unfolding request accept_invitation revoke_invitation
request-IsUsed (create token_hash organization email role expires_at) token m h =
    elim (Result-cases (create_invitation token_hash organization email role expires_at m)) [
      | inl (out, e) ↦
          rw e
            (create_invitation-IsUsed token_hash organization email role expires_at token m out e h)
      | inr (_, e) ↦ rw e h
    ]
request-IsUsed (revoke now token_hash organization) token m h =
    update-IsUsed (may_revoke token_hash organization) _ token m.invitations (λ i. refl) (λ i u. u)
      h
request-IsUsed (accept now token_hash subject email) token m h =
    elim (Result-cases (accept_invitation now token_hash subject email m)) [
      | inl (a, e) ↦ rw e (accept_found-IsUsed now token_hash subject email token _ m a e h)
      | inr (_, e) ↦ rw e h
    ]

requests-IsUsed :
    (qs : List Request) (token : Text) (m : Members)
    → IsUsed token m.invitations
    → IsUsed token (requests qs m).invitations
unfolding requests
requests-IsUsed [] token m h = h
requests-IsUsed (q ∷ qs) token m h =
    requests-IsUsed qs token (request q m) (request-IsUsed q token m h)

open_token :
    (now : ℕ) (token : Text) (i : Invitation)
    → is_open now token i ≡ true
    → has_token token i ≡ true
open_token now token i e =
    let (open_row, _) = &&-eq-true (has_token token i && is_pending i) (ltb now i.expires_at) e in
    (&&-eq-true (has_token token i) (is_pending i) open_row).0

marked-Used :
    (now : ℕ) (token : Text) (test : Bool) (i : Invitation)
    → (has_token token i ≡ true → test ≡ true)
    → Used token (if test then record i { accepted_at = some now } else i)
marked-Used now token true i h = λ e. refl
marked-Used now token false i h = λ e. absurd_test (h e)

marked-IsUsed :
    (now : ℕ) (token : Text) (invitations : List Invitation)
    → is_some (find (has_token token) invitations) ≡ true
    → IsUsed token
        (update_where (has_token token) (λ j. record j { accepted_at = some now }) invitations)
marked-IsUsed now token invitations e = record {
  there =
      rw
        (find-update_where (has_token token) (has_token token)
          (λ j. record j { accepted_at = some now }) invitations (λ i. refl))
        (is_some-updated (has_token token) _ (find (has_token token) invitations) e);
  used =
      All-update_where (λ i. Unit {0}) (Used token) (has_token token) _ invitations
        (λ i u. marked-Used now token (has_token token i) i (λ h. h))
        (All-of (λ i. Unit {0}) invitations (λ i. tt));
}

accept_found-marks :
    (now : ℕ) (token subject email : Text) (o : Option Invitation) (m out : Members)
    (i : Invitation)
    → accept_found now token subject email o m ≡ ok (some i, out)
    → (is_some o ≡ true)
      × (update_where (has_token token) (λ j. record j { accepted_at = some now }) m.invitations
          ≡ out.invitations)
unfolding accept_found
accept_found-marks now token subject email none m out i e =
    absurd_test (ap (λ a. is_some a.0) (ok_injective e))
accept_found-marks now token subject email (some j) m out i e =
    let (_, k) = guard-eq-ok (eq_ignore_ascii_case j.email email) _ _ e in
    (refl, ap (λ a. a.1.invitations) (ok_injective k))

accepted-IsUsed :
    (now : ℕ) (token subject email : Text) (m out : Members) (i : Invitation)
    → accept_invitation now token subject email m ≡ ok (some i, out)
    → IsUsed token out.invitations
unfolding accept_invitation
accepted-IsUsed now token subject email m out i e =
    let (s, same) =
      accept_found-marks now token subject email (find (is_open now token) m.invitations) m out i
        e in
    let (j, f) = some_of _ s in
    rw (sym same) (
      marked-IsUsed now token m.invitations (
        find-weaker (is_open now token) (has_token token) m.invitations j (open_token now token) f))

Used-closed : (now : ℕ) (token : Text) (i : Invitation) → Used token i → is_open now token i ≡ false
Used-closed now token i u = elim (Bool-cases (has_token token i)) [
  | inl e ↦ rw (e, u e) refl
  | inr e ↦ rw e refl
]

-- Once an invitation has been accepted, its token is refused to everyone, whatever invitations are made,
-- revoked and accepted in between.
pub accept_invitation-once :
    (now later : ℕ) (token subject other email mail : Text) (m out : Members) (i : Invitation)
    (qs : List Request)
    → accept_invitation now token subject email m ≡ ok (some i, out)
    → accept_invitation later token other mail (requests qs out) ≡ ok (none, requests qs out)
unfolding accept_invitation accept_found
accept_invitation-once now later token subject other email mail m out i qs e =
    let h = requests-IsUsed qs token out (accepted-IsUsed now token subject email m out i e) in
    rw
      (find-All_none (is_open later token) (requests qs out).invitations
        (All-map (Used token) _ _ (Used-closed later token) h.used))
      refl
