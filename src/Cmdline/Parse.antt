-- ===== src/Cmdline/Parse.antt =====
-- `cmdline_parse` as a whole.
use adr_os.Prelude.{
  ℕ, All, ◌↔◌, ◌++◌, ◌≢◌, true, false, Option, none, some, List, [], ◌∷◌, take, ◌≡◌,
}
use adr_os.Prelude.Text.{codes}
use adr_os.Cmdline.{
  Text, Cmdline, kparam_max, kflag_max, max_args, max_envs, max_tokens, known_kv_keys, known_flags,
  is_known_kv_key, is_known_flag, split_eq, is_separator, cmdline_get,
}
use adr_os.Cmdline.Tables.{Listed}
use adr_os.Cmdline.Words.{words}
use adr_os.Cmdline.Sorting.{as_param, as_flag, as_arg, as_env, collect}

-- The value of the first `init=` that is not empty, or the path of the early init.
abbrev pub init_of : Option Text → Text
init_of none = codes "/init"
init_of (some []) = codes "/init"
init_of (some (c ∷ value)) = c ∷ value

-- The words without a first one that begins with `/`.
pub data WithoutKernel : List Text → List Text → Type 0 where
  no_words : WithoutKernel [] []
  path_first : (tok : Text) (toks : List Text) → WithoutKernel ((47 ∷ tok) ∷ toks) toks
  other_first :
      (tok : Text) (toks : List Text)
      → ((path : Text) → tok ≢ 47 ∷ path)
      → WithoutKernel (tok ∷ toks) (tok ∷ toks)

-- A word with a `=` is split at the first one.
pub data Split : Text → Option (Text × Text) → Type 0 where
  whole : {tok : Text} → All (λ (c : ℕ). c ≢ 61) tok → Split tok none
  parts :
      (key value : Text)
      → All (λ (c : ℕ). c ≢ 61) key
      → Split (key ++ 61 ∷ value) (some (key, value))

-- What `cmdline_parse` leaves, from the words of the command line.
pub record Parsed (raw : Text) (s : Cmdline) : Type 0 where
  pub tokens : List Text
  pub cut : WithoutKernel (take max_tokens (words raw)) tokens
  -- how `collect` splits a word, and tells separators, keys and flags from others
  pub split : (tok : Text) → Split tok (split_eq tok)
  pub separator : (tok : Text) → (is_separator tok ≡ true) ↔ (codes "--" ≡ tok)
  pub keys : (key : Text) → (is_known_kv_key key ≡ true) ↔ Listed key known_kv_keys
  pub words_known : (tok : Text) → (is_known_flag tok ≡ true) ↔ Listed tok known_flags
  pub raw_kept : s.raw_copy ≡ raw
  pub params : s.kparams ≡ take kparam_max (collect as_param false tokens)
  pub flags : s.kflags ≡ take kflag_max (collect as_flag false tokens)
  pub args : s.init_argv ≡ take max_args (collect as_arg false tokens)
  pub envs : s.init_envp ≡ take max_envs (collect as_env false tokens)
  pub init : s.init_path_val ≡ init_of (cmdline_get (codes "init") s)
