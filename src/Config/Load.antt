-- ===== src/Config/Load.antt =====
-- config/config.go: `LoadConfigFromFileAndEnvironment`. The file system, the YAML decoder, the
-- operating system's name and `path.Join` are parameters; an error keeps its branch and its causes,
-- not the text of the message.
pub mod Laws
mod Tests
use configcat_proxy.Base.{
  ◌==◌, if◌then◌else◌, Result, ok, err, ◌>>=◌, String, Bool, not, Option, none, some, List, [], ◌∷◌,
  string_eq,
}
use configcat_proxy.Config.Types.{Regexp, Config}
use configcat_proxy.Config.Defaults.{default_config}
use configcat_proxy.Config.Fixup.{fixup}
use configcat_proxy.Config.Env.{load_env}
use configcat_proxy.Config.Env.Structs.{EnvVarReadError, Converters}

-- What the load asks of `os`, `filepath` and `yaml`. `exists` is false where `os.Stat` fails with
-- `ErrNotExist`; `unmarshal` decodes over the configuration that it is given.
pub record Files : Type 0 where
  pub exists : String → Bool
  pub eval_symlinks : String → Result String String
  pub read_file : String → Result String String
  pub unmarshal : String → Config → Result String Config

-- The errors of the load, by the branch they come from.
pub data LoadError : Type 0 where
  no_file : String → LoadError
  no_symlink : String → LoadError
  no_read : String → String → LoadError
  no_parse : String → String → LoadError
  no_env : EnvVarReadError → LoadError
  no_regex : String → LoadError

-- `fmt.Errorf("...: %s", err)` on the error of a call.
abbrev pub wrap {ℓ κ} :
    {E : Type ℓ} {A : Type κ} → (E → LoadError) → Result E A → Result LoadError A
wrap f (ok a) = ok a
wrap f (err e) = err (f e)

-- `defaultConfigPath`, for the value of `runtime.GOOS`.
unfoldable pub default_config_path :
    (String → String) → (List String → String) → String → Option String
default_config_path getenv join goos =
    if goos == "windows"
    then some (join (getenv "PROGRAMDATA" ∷ "configcat" ∷ "proxy" ∷ "options.yml" ∷ []))
    else if goos == "darwin"
    then some (join ("/Library/Application Support" ∷ "configcat" ∷ "proxy" ∷ "options.yml" ∷ []))
    else if goos == "linux"
    then some (join ("/etc" ∷ "configcat" ∷ "proxy" ∷ "options.yml" ∷ []))
    else none

-- The reading and decoding of one file, which both branches of the load end with.
unfoldable pub read_yaml : Files → String → Config → Result LoadError Config
read_yaml files path config = do
  data_ ← wrap (no_read path) (files.read_file path)
  wrap (no_parse path) (files.unmarshal data_ config)

-- The `else if` of the load: the file at the default path, where there is one.
unfoldable pub load_default : Files → Option String → Config → Result LoadError Config
unfolding read_yaml
load_default files none config = ok config
load_default files (some path) config =
    if files.exists path then read_yaml files path config else ok config

-- The first part of the load, up to `loadEnv`.
unfoldable pub load_file : Files → Option String → String → Config → Result LoadError Config
unfolding read_yaml load_default
load_file files default_path file_path config =
    if not (file_path == "")
    then (if not (files.exists file_path)
        then err (no_file file_path)
        else (wrap no_symlink (files.eval_symlinks file_path) >>= λ real_path.
            read_yaml files real_path config))
    else load_default files default_path config

module _ (files : Files) (getenv : String → String) (conv : Converters) (env_name : String → String)
    (compile : String → Result String Regexp) (join : List String → String) (goos : String) where
  -- `LoadConfigFromFileAndEnvironment`.
  unfoldable pub load_config : String → Result LoadError Config
  load_config file_path = do
    config ← load_file files (default_config_path getenv join goos) file_path default_config
    loaded ← wrap no_env (load_env getenv conv env_name config)
    wrap no_regex (fixup compile loaded)
