-- ===== src/Platform.antt =====
-- internal/platform/paths.go: where the program keeps its files. `filepath.Join` and the
-- environment are parameters.
use torrcli.Base.{String, List, [], ◌∷◌, ite, dec_str}

pub record Paths : Type 0 where
  pub config_dir : String
  pub state_dir : String
  pub runtime_dir : String
  pub config_file : String
  pub session_file : String
  pub socket_path : String
  pub lock_file : String

-- `runtime.GOOS`, and the two variables that are looked up.
pub record Environment : Type 0 where
  pub goos : String
  pub xdg_state_home : String
  pub xdg_runtime_dir : String

module _ (join : List String → String) where
  unfoldable pub new_paths : String → String → String → Paths
  new_paths config_dir state_dir runtime_dir = record {
    config_dir = config_dir;
    state_dir = state_dir;
    runtime_dir = runtime_dir;
    config_file = join (config_dir ∷ "config.json" ∷ []);
    session_file = join (state_dir ∷ "session.json" ∷ []);
    socket_path = join (runtime_dir ∷ "torrd.sock" ∷ []);
    lock_file = join (runtime_dir ∷ "torrd.lock" ∷ []);
  }

  -- `if directory != "" { p.Dir = directory }`.
  abbrev override : String → String → String
  override directory old = ite (dec_str directory "") old directory

  unfoldable pub with_overrides : Paths → String → String → String → Paths
  unfolding new_paths
  with_overrides p config_dir state_dir runtime_dir =
      new_paths (override config_dir p.config_dir) (override state_dir p.state_dir)
        (override runtime_dir p.runtime_dir)

  unfoldable pub default_state_dir : Environment → String → String → String
  default_state_dir env config_dir home = ite (dec_str env.goos "windows") config_dir (
      ite (dec_str env.goos "darwin") config_dir (
        ite (dec_str env.xdg_state_home "") (join (home ∷ ".local" ∷ "state" ∷ "torrcli" ∷ []))
          (join (env.xdg_state_home ∷ "torrcli" ∷ []))))

  unfoldable pub default_runtime_dir : Environment → String → String
  default_runtime_dir env state_dir =
      ite (dec_str env.goos "windows") (join (state_dir ∷ "runtime" ∷ [])) (
        ite (dec_str env.xdg_runtime_dir "") (join (state_dir ∷ "runtime" ∷ []))
          (join (env.xdg_runtime_dir ∷ "torrcli" ∷ [])))

  -- DefaultPaths, with `configRoot` and `home` as the operating system gives them.
  unfoldable pub default_paths : Environment → String → String → Paths
  unfolding new_paths default_state_dir default_runtime_dir
  default_paths env config_root home =
      let config_dir = join (config_root ∷ "torrcli" ∷ []) in
      let state_dir = default_state_dir env config_dir home in
      new_paths config_dir state_dir (default_runtime_dir env state_dir)
