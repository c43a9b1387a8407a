-- ===== src/Cli/Approvals/Runs.antt =====
-- A run of the approvals over the sample serialisation.
use oath.Prelude.{◌≡◌, ◌||◌, true, some, [], ◌∷◌, Text, codes}
use oath.Cli.Approvals.{
  ExecApproval, ApprovalFile, approval_eq, holds, load, contains_approval, remember,
}
use oath.Cli.Approvals.Remembered.{contains-remember}
use oath.Cli.Approvals.Sample.{parse, print, parse-print}

abbrev first : ExecApproval
first = record {
  package_name = codes "demo";
  version = codes "1.0.0";
  integrity = codes "sha512-one";
  capabilities = codes "network" ∷ [];
  sandbox_backend = codes "native";
  deny_network = true;
}

abbrev second : ExecApproval
second = record first { integrity = codes "sha512-two" }

abbrev stored : ApprovalFile
stored = record { schema_version = 1; approvals = second ∷ [] }

contains-remember_example :
    (t : Text) × (remember parse print (some (print stored)) first ≡ some t)
    × (contains_approval parse print (some t) second
        ≡ some (holds stored.approvals second || approval_eq first second))
unfolding load
contains-remember_example =
    contains-remember parse print (some (print stored)) stored first second parse-print
      (parse-print stored)
