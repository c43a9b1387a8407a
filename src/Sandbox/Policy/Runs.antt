-- ===== src/Sandbox/Policy/Runs.antt =====
-- Runs of the sandbox policy.
use oath.Prelude.{refl, List, [], ◌∷◌, Text, codes}
use oath.Sandbox.Policy.{
  PathBuf, network, read, write, env, SandboxPolicy, is_unrestricted, to_plan,
}
use oath.Sandbox.Policy.Grants.{IsFaithful, to_plan-IsFaithful}

abbrev workdir : PathBuf
workdir = codes "work" ∷ []

abbrev source : PathBuf
source = codes "work" ∷ codes "src" ∷ []

abbrev builder : SandboxPolicy
builder = record {
  package_name = codes "esbuild";
  workdir = workdir;
  permissions =
      network (codes "registry.npmjs.org" ∷ [])
      ∷ env (codes "HOME" ∷ codes "PATH" ∷ [])
      ∷ read ((codes "etc" ∷ []) ∷ [])
      ∷ env (codes "PATH" ∷ [])
      ∷ write ((codes "tmp" ∷ []) ∷ [])
      ∷ [];
  timeout_secs = 60;
}

abbrev vars : List Text
vars = codes "HOME" ∷ codes "SECRET" ∷ []

to_plan-IsFaithful_example : IsFaithful builder (to_plan vars builder)
unfolding is_unrestricted
to_plan-IsFaithful_example = to_plan-IsFaithful vars builder refl
