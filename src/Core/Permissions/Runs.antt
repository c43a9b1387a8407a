-- ===== src/Core/Permissions/Runs.antt =====
-- Runs of the permissions.
use oath.Prelude.{◌≤◌, refl, false, [], ◌∷◌, codes}
use oath.Core.Permissions.{Permissions, risk_level}
use oath.Core.Permissions.Laws.{rank, risk_level-le}

abbrev reader : Permissions
reader = record {
  net = [];
  fs_read = codes "src" ∷ [];
  fs_write = [];
  env = [];
  run = [];
  ffi = false;
  install_scripts = false;
}

abbrev fetcher : Permissions
fetcher = record reader { net = codes "example.org" ∷ []; fs_read = codes "lib" ∷ codes "src" ∷ [] }

risk_level-le_example : rank (risk_level reader) ≤ rank (risk_level fetcher)
risk_level-le_example = risk_level-le reader fetcher (record {
  net = λ e. refl;
  fs_read = λ e. e;
  fs_write = λ e. refl;
  env = λ e. refl;
  run = λ e. refl;
  ffi = λ e. e;
  install_scripts = λ e. e;
})
