-- ===== src/Sandbox/Policy/Grants.antt =====
-- What a plan grants is what the policy allows.
use oath.Prelude.{
  ◌∙◌, ◌≡◌, ◌↔◌, refl, ◌||◌, Bool, true, false, arith, any, List, [], ◌∷◌, Text, contains_text,
}
use oath.Prelude.Unions.{
  extend_missing, any-append, contains-extend_missing, all_distinct, extend_missing-distinct,
  contains-any,
}
use oath.Sandbox.Policy.{
  PathBuf, path_starts_with, inherit, SandboxPlan, strict, Permission, network, read, write, env,
  subprocess, unrestricted, SandboxPolicy, covers_read, covers_write, covers_env, is_unrestricted,
  allows_network, allows_read, allows_write, allows_env, collect_env, allowed_env_names, add_paths,
  add_all_paths, base_plan, to_plan,
}

-- Whether one of the paths holds a path.
abbrev pub holds : List PathBuf → PathBuf → Bool
holds paths path = any (path_starts_with path) paths

read-add_paths :
    (p : Permission) (plan : SandboxPlan) (path : PathBuf)
    → holds (add_paths p plan).read_only_paths path
      ≡ holds plan.read_only_paths path || covers_read path p
unfolding add_paths
read-add_paths (read paths) plan path = any-append _ plan.read_only_paths paths
read-add_paths (write paths) plan path = ground arith
read-add_paths (network _) plan path = ground arith
read-add_paths (env _) plan path = ground arith
read-add_paths (subprocess _) plan path = ground arith
read-add_paths unrestricted plan path = ground arith

read-add_all_paths :
    (ps : List Permission) (plan : SandboxPlan) (path : PathBuf)
    → holds (add_all_paths ps plan).read_only_paths path
      ≡ holds plan.read_only_paths path || any (covers_read path) ps
unfolding add_all_paths
read-add_all_paths [] plan path = ground arith
read-add_all_paths (p ∷ ps) plan path =
    ground (arith, read-add_all_paths ps (add_paths p plan) path, read-add_paths p plan path)

write-add_paths :
    (p : Permission) (plan : SandboxPlan) (path : PathBuf)
    → holds (add_paths p plan).writable_paths path
      ≡ holds plan.writable_paths path || covers_write path p
unfolding add_paths
write-add_paths (read paths) plan path = ground arith
write-add_paths (write paths) plan path = any-append _ plan.writable_paths paths
write-add_paths (network _) plan path = ground arith
write-add_paths (env _) plan path = ground arith
write-add_paths (subprocess _) plan path = ground arith
write-add_paths unrestricted plan path = ground arith

write-add_all_paths :
    (ps : List Permission) (plan : SandboxPlan) (path : PathBuf)
    → holds (add_all_paths ps plan).writable_paths path
      ≡ holds plan.writable_paths path || any (covers_write path) ps
unfolding add_all_paths
write-add_all_paths [] plan path = ground arith
write-add_all_paths (p ∷ ps) plan path =
    ground (arith, write-add_all_paths ps (add_paths p plan) path, write-add_paths p plan path)

-- The fields that the loop leaves alone.
record Keeps (plan out : SandboxPlan) : Type 0 where
  environment_allowlist : out.environment_allowlist ≡ plan.environment_allowlist
  network : out.network ≡ plan.network
  allow_subprocesses : out.allow_subprocesses ≡ plan.allow_subprocesses

abbrev kept : (plan : SandboxPlan) → Keeps plan plan
kept plan = record { environment_allowlist = refl; network = refl; allow_subprocesses = refl }

add_paths-Keeps : (p : Permission) (plan : SandboxPlan) → Keeps plan (add_paths p plan)
unfolding add_paths
add_paths-Keeps (read _) plan = record {
  environment_allowlist = refl;
  network = refl;
  allow_subprocesses = refl;
}
add_paths-Keeps (write _) plan = record {
  environment_allowlist = refl;
  network = refl;
  allow_subprocesses = refl;
}
add_paths-Keeps (network _) plan = kept plan
add_paths-Keeps (env _) plan = kept plan
add_paths-Keeps (subprocess _) plan = kept plan
add_paths-Keeps unrestricted plan = kept plan

add_all_paths-Keeps :
    (ps : List Permission) (plan : SandboxPlan) → Keeps plan (add_all_paths ps plan)
unfolding add_all_paths
add_all_paths-Keeps [] plan = kept plan
add_all_paths-Keeps (p ∷ ps) plan =
    let h = add_all_paths-Keeps ps (add_paths p plan) in
    let k = add_paths-Keeps p plan in
    record {
      environment_allowlist = h.environment_allowlist ∙ k.environment_allowlist;
      network = h.network ∙ k.network;
      allow_subprocesses = h.allow_subprocesses ∙ k.allow_subprocesses;
    }

contains-collect_env :
    (ps : List Permission) (names : List Text) (name : Text)
    → contains_text (collect_env names ps) name
      ≡ contains_text names name || any (covers_env name) ps
unfolding collect_env
contains-collect_env [] names name = ground arith
contains-collect_env (env allowed ∷ ps) names name = ground (
  arith,
  contains-collect_env ps (extend_missing names allowed) name,
  contains-extend_missing names allowed name,
  contains-any allowed name,
)
contains-collect_env (read _ ∷ ps) names name = contains-collect_env ps names name
contains-collect_env (write _ ∷ ps) names name = contains-collect_env ps names name
contains-collect_env (network _ ∷ ps) names name = contains-collect_env ps names name
contains-collect_env (subprocess _ ∷ ps) names name = contains-collect_env ps names name
contains-collect_env (unrestricted ∷ ps) names name = contains-collect_env ps names name

collect_env-distinct :
    (ps : List Permission) (names : List Text)
    → all_distinct names ≡ true
    → all_distinct (collect_env names ps) ≡ true
unfolding collect_env
collect_env-distinct [] names h = h
collect_env-distinct (env allowed ∷ ps) names h =
    collect_env-distinct ps (extend_missing names allowed) (extend_missing-distinct allowed names h)
collect_env-distinct (read _ ∷ ps) names h = collect_env-distinct ps names h
collect_env-distinct (write _ ∷ ps) names h = collect_env-distinct ps names h
collect_env-distinct (network _ ∷ ps) names h = collect_env-distinct ps names h
collect_env-distinct (subprocess _ ∷ ps) names h = collect_env-distinct ps names h
collect_env-distinct (unrestricted ∷ ps) names h = collect_env-distinct ps names h

-- The plan of a policy, field by field: a path can be read where the policy allows it, written where
-- the policy allows it or under the working directory; a variable is passed where the policy allows
-- it; the network is inherited where the policy allows it.
pub record IsFaithful (p : SandboxPolicy) (plan : SandboxPlan) : Type 0 where
  pub reads : (path : PathBuf) → holds plan.read_only_paths path ≡ allows_read p path
  pub writes :
      (path : PathBuf)
      → holds plan.writable_paths path ≡ path_starts_with path p.workdir || allows_write p path
  pub passes : (name : Text) → contains_text plan.environment_allowlist name ≡ allows_env p name
  pub inherits : (plan.network ≡ inherit) ↔ (allows_network p ≡ true)

-- Without the permission `Unrestricted` the plan grants what the policy allows, and writing under
-- the working directory.
pub to_plan-IsFaithful :
    (vars : List Text) (p : SandboxPolicy)
    → is_unrestricted p ≡ false
    → IsFaithful p (to_plan vars p)
unfolding contains_text to_plan base_plan strict allows_read allows_write allows_env
    allowed_env_names
to_plan-IsFaithful vars p h =
    let k = add_all_paths-Keeps p.permissions (base_plan vars p) in
    record {
      reads = λ path. ground (arith, h, read-add_all_paths p.permissions (base_plan vars p) path);
      writes = λ path. ground (arith, h, write-add_all_paths p.permissions (base_plan vars p) path);
      passes = λ name.
          ground (arith, h, k.environment_allowlist, contains-collect_env p.permissions [] name);
      inherits = (λ e. ground (arith, e, k.network), λ e. ground (arith, e, k.network));
    }

-- Unless the policy is unrestricted its plan passes no variable twice.
allowed_env_names-distinct :
    (vars : List Text) (p : SandboxPolicy)
    → is_unrestricted p ≡ false
    → all_distinct (to_plan vars p).environment_allowlist ≡ true
unfolding to_plan base_plan allowed_env_names
allowed_env_names-distinct vars p h =
    let k = add_all_paths-Keeps p.permissions (base_plan vars p) in
    rw (k.environment_allowlist, h)
      (collect_env-distinct p.permissions [] (unfold all_distinct in refl))
