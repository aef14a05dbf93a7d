-- ===== src/Config/Load/Laws.antt =====
-- Where a loaded configuration comes from, config/config.go.
use mathlib.Core.Path.{subst}
use configcat_proxy.Base.{
  ◌==◌, Bool-cases, Result, ok, err, >>=-eq-ok, String, ◌≡◌, refl, sym, ◌≢◌, inl, inr, true, false,
  Option, none, some, List, arith, eq_iff, string_eq,
}
use configcat_proxy.Config.Types.{Regexp, Config}
use configcat_proxy.Config.Load.{
  Files, LoadError, no_symlink, no_read, no_parse, no_env, no_regex, wrap, default_config_path,
  read_yaml, load_default, load_file, load_config,
}
use configcat_proxy.Config.Defaults.{default_config}
use configcat_proxy.Config.Fixup.{fixup}
use configcat_proxy.Config.Fixup.Laws.{IsSettled, fixup-IsSettled}
use configcat_proxy.Config.Env.{load_env}
use configcat_proxy.Config.Env.Structs.{Converters}

pub wrap-eq-ok {ℓ κ} :
    {E : Type ℓ} {A : Type κ} (f : E → LoadError) (r : Result E A) {a : A}
    → wrap f r ≡ ok a
    → r ≡ ok a
wrap-eq-ok f (ok b) h = cc
wrap-eq-ok f (err e) h = cc

-- `d` is what the file at `path` says, decoded over `c`.
abbrev pub IsDecoded : Files → String → Config → Config → Type 0
IsDecoded files path c d =
    (text : String) × (files.read_file path ≡ ok text) × (files.unmarshal text c ≡ ok d)

-- The file that a configuration is read from: the one that is named, which has to be there; or the
-- one at the default path, if it is there; or none.
pub data IsSource (files : Files) (default_path : Option String) (c d : Config)
    : String → Type 0 where
  named :
      {path real_path : String}
      → path ≢ ""
      → files.exists path ≡ true
      → files.eval_symlinks path ≡ ok real_path
      → IsDecoded files real_path c d
      → IsSource files default_path c d path
  by_default :
      {path : String}
      → default_path ≡ some path
      → files.exists path ≡ true
      → IsDecoded files path c d
      → IsSource files default_path c d ""
  absent :
      ((path : String) → default_path ≡ some path → files.exists path ≡ false)
      → d ≡ c
      → IsSource files default_path c d ""

module _ (files : Files) where
  read_yaml-IsDecoded :
      (path : String) (c d : Config) → read_yaml files path c ≡ ok d → IsDecoded files path c d
  unfolding read_yaml
  read_yaml-IsDecoded path c d h =
      let (text, e, rest) = >>=-eq-ok (wrap (no_read path) (files.read_file path)) _ h in
      (
        text,
        wrap-eq-ok (no_read path) (files.read_file path) e,
        wrap-eq-ok (no_parse path) (files.unmarshal text c) rest,
      )

  load_default-IsSource :
      (default_path : Option String) (c d : Config)
      → load_default files default_path c ≡ ok d
      → IsSource files default_path c d ""
  unfolding load_default
  load_default-IsSource none c d h = absent (λ path e. cc) cc
  load_default-IsSource (some path) c d h = elim (Bool-cases (files.exists path)) [
    | inl there ↦ by_default refl there (read_yaml-IsDecoded path c d (rw there at h))
    | inr missing ↦ absent (λ p e. ground arith) (ground arith)
  ]

  load_named-IsSource :
      (default_path : Option String) (path : String) (c d : Config)
      → (path == "") ≡ false
      → load_file files default_path path c ≡ ok d
      → IsSource files default_path c d path
  unfolding load_file
  load_named-IsSource default_path path c d given h = elim (Bool-cases (files.exists path)) [
    | inr missing ↦ ground arith
    | inl there ↦
        let (real_path, e, rest) =
          >>=-eq-ok (wrap no_symlink (files.eval_symlinks path))
            (λ real_path. read_yaml files real_path c) {b = d} (ground arith) in
        named (λ empty. ground (arith, (eq_iff path "").1 empty)) there
          (wrap-eq-ok no_symlink (files.eval_symlinks path) e)
          (read_yaml-IsDecoded real_path c d rest)
  ]

  load_file-IsSource :
      (default_path : Option String) (path : String) (c d : Config)
      → load_file files default_path path c ≡ ok d
      → IsSource files default_path c d path
  unfolding load_file
  load_file-IsSource default_path path c d h = elim (Bool-cases (path == "")) [
    | inl empty ↦
        subst (IsSource files default_path c d) (sym ((eq_iff path "").0 empty))
          (load_default-IsSource default_path c d (rw empty at h))
    | inr given ↦ load_named-IsSource default_path path c d given h
  ]

module _ (files : Files) (getenv : String → String) (conv : Converters) (env_name : String → String)
    (compile : String → Result String Regexp) (join : List String → String) (goos : String) where
  -- The load in its three steps.
  pub record IsLoadedFrom (path : String) (d : Config) : Type 0 where
    pub read : Config
    pub loaded : Config
    pub source : IsSource files (default_config_path getenv join goos) default_config read path
    pub environment : load_env getenv conv env_name read ≡ ok loaded
    pub origins : fixup compile loaded ≡ ok d
    pub settled : IsSettled d

  -- A load that succeeds has read the file that was named, or, where none was, the one at the
  -- default path if there is one; it decoded that over the defaults, laid the environment over it
  -- and fixed the result up, so that the configuration it gives is settled.
  pub load_config-IsLoadedFrom :
      (path : String) (d : Config)
      → load_config files getenv conv env_name compile join goos path ≡ ok d
      → IsLoadedFrom path d
  unfolding load_config
  load_config-IsLoadedFrom path d h =
      let (c, e, rest) =
        >>=-eq-ok (load_file files (default_config_path getenv join goos) path default_config) _
          h in
      let (l, e', last) = >>=-eq-ok (wrap no_env (load_env getenv conv env_name c)) _ rest in
      let origins = wrap-eq-ok no_regex (fixup compile l) last in
      record {
        read = c;
        loaded = l;
        source =
            load_file-IsSource files (default_config_path getenv join goos) path default_config c e;
        environment = wrap-eq-ok no_env (load_env getenv conv env_name c) e';
        origins = origins;
        settled = fixup-IsSettled compile l d origins;
      }
