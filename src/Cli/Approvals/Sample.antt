-- ===== src/Cli/Approvals/Sample.antt =====
-- A serialisation of approvals that is read back. It stands in for serde_json where a theorem is
-- applied to data.
use oath.Prelude.{
  ℕ, zero, suc, ◌≡◌, refl, Bool, true, false, arith, Option, none, some, List, [], ◌∷◌, length,
  Text,
}
use oath.Transparency.Sample.{Reader, pure, ◌>>=◌, put_text, get_text, get-put_text, get_nat, whole}
use oath.Cli.Approvals.{ExecApproval, ApprovalFile}

put_texts : List Text → Text → Text
put_texts [] r = r
put_texts (t ∷ ts) r = put_text t (put_texts ts r)

get_texts : ℕ → Reader (List Text)
get_texts zero = pure []
get_texts (suc n) = do t ← get_text; ts ← get_texts n; pure (t ∷ ts)

get-put_texts : (ts : List Text) (r : Text) → get_texts (length ts) (put_texts ts r) ≡ some (ts, r)
unfolding get_texts put_texts
get-put_texts [] r = refl
get-put_texts (t ∷ ts) r = ground (arith, get-put_text t (put_texts ts r), get-put_texts ts r)

put_bool : Bool → Text → Text
put_bool false r = 0 ∷ r
put_bool true r = 1 ∷ r

get_bool : Reader Bool
get_bool [] = none
get_bool (zero ∷ r) = some (false, r)
get_bool (suc n ∷ r) = some (true, r)

get-put_bool : (b : Bool) (r : Text) → get_bool (put_bool b r) ≡ some (b, r)
unfolding get_bool put_bool
get-put_bool false r = refl
get-put_bool true r = refl

put_approval : ExecApproval → Text → Text
put_approval x r =
    length x.capabilities
    ∷ put_text x.package_name (
        put_text x.version (
          put_text x.integrity
            (put_texts x.capabilities (put_text x.sandbox_backend (put_bool x.deny_network r)))))

get_approval : Reader ExecApproval
get_approval = do
  n ← get_nat
  package_name ← get_text
  version ← get_text
  integrity ← get_text
  capabilities ← get_texts n
  sandbox_backend ← get_text
  deny_network ← get_bool
  pure (record {
    package_name = package_name;
    version = version;
    integrity = integrity;
    capabilities = capabilities;
    sandbox_backend = sandbox_backend;
    deny_network = deny_network;
  })

get-put_approval : (x : ExecApproval) (r : Text) → get_approval (put_approval x r) ≡ some (x, r)
unfolding get_approval put_approval get_nat
get-put_approval x r =
    let r5 = put_bool x.deny_network r in
    let r4 = put_text x.sandbox_backend r5 in
    let r3 = put_texts x.capabilities r4 in
    let r2 = put_text x.integrity r3 in
    let r1 = put_text x.version r2 in
    ground (
      arith,
      get-put_text x.package_name r1,
      get-put_text x.version r2,
      get-put_text x.integrity r3,
      get-put_texts x.capabilities r4,
      get-put_text x.sandbox_backend r5,
      get-put_bool x.deny_network r,
    )

put_approvals : List ExecApproval → Text → Text
put_approvals [] r = r
put_approvals (x ∷ xs) r = put_approval x (put_approvals xs r)

get_approvals : ℕ → Reader (List ExecApproval)
get_approvals zero = pure []
get_approvals (suc n) = do x ← get_approval; xs ← get_approvals n; pure (x ∷ xs)

get-put_approvals :
    (xs : List ExecApproval) (r : Text)
    → get_approvals (length xs) (put_approvals xs r) ≡ some (xs, r)
unfolding get_approvals put_approvals
get-put_approvals [] r = refl
get-put_approvals (x ∷ xs) r =
    ground (arith, get-put_approval x (put_approvals xs r), get-put_approvals xs r)

pub print : ApprovalFile → Text
print f = f.schema_version ∷ length f.approvals ∷ put_approvals f.approvals []

read_file : Reader ApprovalFile
read_file = do
  schema_version ← get_nat
  n ← get_nat
  approvals ← get_approvals n
  pure (record { schema_version = schema_version; approvals = approvals })

pub parse : Text → Option ApprovalFile
parse t = whole (read_file t)

pub parse-print : (f : ApprovalFile) → parse (print f) ≡ some f
unfolding parse print read_file get_nat
parse-print f = ground (arith, get-put_approvals f.approvals [])
