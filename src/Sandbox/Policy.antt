-- ===== src/Sandbox/Policy.antt =====
-- crates/oath-sandbox/src/policy.rs, as it is built outside Windows. A path is the list of its
-- components, on which `Path::starts_with` compares.
mod Grants
mod Runs
use oath.Prelude.{
  ℕ, ◌*◌, ◌&&◌, ◌||◌, Bool, true, false, any, if◌then◌else◌, List, [], ◌∷◌, ◌++◌, Text, codes,
  text_eq, contains_text,
}
use oath.Prelude.Unions.{extend_missing}

abbrev pub PathBuf : Type 0
PathBuf = List Text

-- `path.starts_with(base)`
pub path_starts_with : PathBuf → PathBuf → Bool
path_starts_with path [] = true
path_starts_with [] (x ∷ base) = false
path_starts_with (y ∷ path) (x ∷ base) = text_eq y x && path_starts_with path base

pub data NetworkMode : Type 0 where
  deny inherit : NetworkMode

pub record ResourceLimits : Type 0 where
  pub timeout_secs : ℕ
  pub max_processes : ℕ
  pub max_open_files : ℕ
  pub max_file_bytes : ℕ
  pub max_memory_bytes : ℕ

abbrev pub default_limits : ResourceLimits
default_limits = record {
  timeout_secs = 30;
  max_processes = 64;
  max_open_files = 256;
  max_file_bytes = 512 * 1024 * 1024;
  max_memory_bytes = 1024 * 1024 * 1024;
}

pub record SandboxPlan : Type 0 where
  pub version : ℕ
  pub package_name : Text
  pub workdir : PathBuf
  pub read_only_paths : List PathBuf
  pub writable_paths : List PathBuf
  pub environment_allowlist : List Text
  pub network : NetworkMode
  pub allow_subprocesses : Bool
  pub limits : ResourceLimits

pub strict : Text → PathBuf → SandboxPlan
strict package_name workdir = record {
  version = 1;
  package_name = package_name;
  workdir = workdir;
  read_only_paths = workdir ∷ [];
  writable_paths = workdir ∷ [];
  environment_allowlist = codes "PATH" ∷ codes "TERM" ∷ [];
  network = deny;
  allow_subprocesses = true;
  limits = default_limits;
}

pub data Permission : Type 0 where
  network : List Text → Permission
  read : List PathBuf → Permission
  write : List PathBuf → Permission
  env : List Text → Permission
  subprocess : List Text → Permission
  unrestricted : Permission

pub record SandboxPolicy : Type 0 where
  pub package_name : Text
  pub workdir : PathBuf
  pub permissions : List Permission
  pub timeout_secs : ℕ

pub minimal : Text → PathBuf → SandboxPolicy
minimal package_name workdir = record {
  package_name = package_name;
  workdir = workdir;
  permissions = [];
  timeout_secs = 30;
}

abbrev pub matches_unrestricted : Permission → Bool
matches_unrestricted unrestricted = true
matches_unrestricted _ = false

abbrev pub matches_network : Permission → Bool
matches_network (network hosts) = true
matches_network unrestricted = true
matches_network _ = false

-- Whether a permission to read, to write, for a variable or for a command covers what is asked.
abbrev pub covers_read : PathBuf → Permission → Bool
covers_read path (read paths) = any (path_starts_with path) paths
covers_read path _ = false

abbrev pub covers_write : PathBuf → Permission → Bool
covers_write path (write paths) = any (path_starts_with path) paths
covers_write path _ = false

abbrev pub covers_env : Text → Permission → Bool
covers_env name (env allowed) = any (λ n. text_eq n name) allowed
covers_env name _ = false

abbrev pub covers_subprocess : Text → Permission → Bool
covers_subprocess command (subprocess commands) = any (λ c. text_eq c command) commands
covers_subprocess command _ = false

pub is_unrestricted : SandboxPolicy → Bool
is_unrestricted p = any matches_unrestricted p.permissions

unfoldable pub allows_network : SandboxPolicy → Bool
allows_network p = any matches_network p.permissions

pub allows_read : SandboxPolicy → PathBuf → Bool
allows_read p path =
    if is_unrestricted p
    then true
    else path_starts_with path p.workdir || any (covers_read path) p.permissions

pub allows_write : SandboxPolicy → PathBuf → Bool
allows_write p path = if is_unrestricted p then true else any (covers_write path) p.permissions

pub allows_env : SandboxPolicy → Text → Bool
allows_env p name = if is_unrestricted p then true else any (covers_env name) p.permissions

pub allows_subprocess : SandboxPolicy → Text → Bool
allows_subprocess p command =
    if is_unrestricted p then true else any (covers_subprocess command) p.permissions

-- The loop over the permissions; `names` grows by what it does not contain.
pub collect_env : List Text → List Permission → List Text
collect_env names [] = names
collect_env names (env allowed ∷ ps) = collect_env (extend_missing names allowed) ps
collect_env names (_ ∷ ps) = collect_env names ps

-- `vars` are the names of the process's own environment.
pub allowed_env_names : List Text → SandboxPolicy → List Text
allowed_env_names vars p = if is_unrestricted p then vars else collect_env [] p.permissions

-- One permission of the loop of `to_plan`.
pub add_paths : Permission → SandboxPlan → SandboxPlan
add_paths (read paths) plan = record plan { read_only_paths = plan.read_only_paths ++ paths }
add_paths (write paths) plan = record plan { writable_paths = plan.writable_paths ++ paths }
add_paths _ plan = plan

pub add_all_paths : List Permission → SandboxPlan → SandboxPlan
add_all_paths [] plan = plan
add_all_paths (p ∷ ps) plan = add_all_paths ps (add_paths p plan)

-- The plan before the loop.
pub base_plan : List Text → SandboxPolicy → SandboxPlan
base_plan vars p =
    let plan = strict p.package_name p.workdir in
    record plan {
      environment_allowlist = allowed_env_names vars p;
      network = if allows_network p then inherit else deny;
      limits = record plan.limits { timeout_secs = p.timeout_secs };
    }

pub to_plan : List Text → SandboxPolicy → SandboxPlan
to_plan vars p = add_all_paths p.permissions (base_plan vars p)
