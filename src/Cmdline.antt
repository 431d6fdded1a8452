-- ===== src/Cmdline.antt =====
-- src/kernel/cmdline.c: the kernel command line. A C string is the list of its bytes, so it holds no
-- NUL, and a pointer into it is the list from there on; what `cmdline_parse` logs is left out.
pub mod Words
pub mod Tables
pub mod Sorting
pub mod Parse
mod Tests
use adr_os.Prelude.{
  ℕ, zero, suc, ◌+◌, Bool, true, false, not, ◌&&◌, ◌||◌, Option, none, some, List, [], ◌∷◌, ◌++◌,
  if◌then◌else◌, ltb, ◌==◌, length, take,
}
use adr_os.Prelude.Text.{codes, same_text, in_table}

abbrev pub Text : Type 0
Text = List ℕ

-- `CMDLINE_MAX`, `KPARAM_MAX`, `KFLAG_MAX`, `CMDLINE_MAX_ARGS` and `CMDLINE_MAX_ENVS`
abbrev pub cmdline_max : ℕ
cmdline_max = 512

abbrev pub kparam_max : ℕ
kparam_max = 16

abbrev pub kflag_max : ℕ
kflag_max = 16

abbrev pub max_args : ℕ
max_args = 16

abbrev pub max_envs : ℕ
max_envs = 16

-- `char* tokens[128]`
abbrev pub max_tokens : ℕ
max_tokens = 128

-- The static variables; the arrays up to their counts.
pub record Cmdline : Type 0 where
  pub raw_copy : Text
  pub kparams : List (Text × Text)
  pub kflags : List Text
  pub init_argv : List Text
  pub init_envp : List Text
  pub init_path_val : Text

-- `known_kv_keys` and `known_flags`
abbrev pub known_kv_keys : List Text
known_kv_keys =
    codes "init"
    ∷ codes "root"
    ∷ codes "rootfstype"
    ∷ codes "rootflags"
    ∷ codes "console"
    ∷ codes "loglevel"
    ∷ codes "rootdelay"
    ∷ []

abbrev pub known_flags : List Text
known_flags =
    codes "quiet"
    ∷ codes "nokaslr"
    ∷ codes "single"
    ∷ codes "noapic"
    ∷ codes "nosmp"
    ∷ codes "ro"
    ∷ codes "rw"
    ∷ codes "rootwait"
    ∷ []

-- `is_known_kv_key` and `is_known_flag`
unfoldable pub is_known_kv_key : Text → Bool
unfolding in_table
is_known_kv_key key = in_table known_kv_keys key

unfoldable pub is_known_flag : Text → Bool
unfolding in_table
is_known_flag tok = in_table known_flags tok

-- `has_char`
unfoldable pub has_char : Text → ℕ → Bool
has_char [] c = false
has_char (x ∷ s) c = (x == c) || has_char s c

-- `*p == ' ' || *p == '\t'`
abbrev pub is_blank : ℕ → Bool
is_blank c = (c == 32) || (c == 9)

-- `while (*p == ' ' || *p == '\t') p++;`
pub skip_blanks : Text → Text
skip_blanks [] = []
skip_blanks (c ∷ p) = if is_blank c then skip_blanks p else c ∷ p

-- `while (*p && *p != ' ' && *p != '\t') p++;`: the bytes passed over.
pub word : Text → Text
word [] = []
word (c ∷ p) = if is_blank c then [] else c ∷ word p

-- Where `p` is behind the word: past the blank that is made its NUL.
pub behind_word : Text → Text
behind_word [] = []
behind_word (c ∷ p) = if is_blank c then p else behind_word p

-- The body of the loop that finds the tokens, behind the blanks, with the rounds that follow.
pub cut : (Text → List Text) → Text → List Text
unfolding word behind_word
cut following [] = []
cut following (c ∷ q) = word (c ∷ q) ∷ following (behind_word (c ∷ q))

-- That loop, `n` tokens before the array is full.
unfoldable pub tokenize : ℕ → Text → List Text
unfolding cut skip_blanks
tokenize zero p = []
tokenize (suc n) p = cut (tokenize n) (skip_blanks p)

-- The key and the value of a token, split at the first `=`.
unfoldable pub split_eq : Text → Option (Text × Text)
split_eq [] = none
split_eq (c ∷ s) =
    let rest = split_eq s in
    if c == 61
    then some ([], s)
    else elim rest [ some (key, value) ↦ some (c ∷ key, value) | none ↦ none ]

-- `if (count < limit) array[count++] = x;`
abbrev pub add_to {ℓ} : {A : Type ℓ} → ℕ → List A → A → List A
add_to limit xs x = if ltb (length xs) limit then xs ++ (x ∷ []) else xs

abbrev pub add_env : Text → Cmdline → Cmdline
add_env tok s = record s { init_envp = add_to max_envs s.init_envp tok }

abbrev pub add_arg : Text → Cmdline → Cmdline
add_arg tok s = record s { init_argv = add_to max_args s.init_argv tok }

-- A token in front of the separator that has a `=`.
unfoldable pub claim_pair : Text → Text → Text → Cmdline → Cmdline
claim_pair tok key value s =
    if is_known_kv_key key
    then (record s { kparams = add_to kparam_max s.kparams (key, value) })
    else add_env tok s

-- One that has none.
unfoldable pub claim_plain : Text → Cmdline → Cmdline
claim_plain tok s =
    if is_known_flag tok
    then (record s { kflags = add_to kflag_max s.kflags tok })
    else if has_char tok 46
    then s
    else add_arg tok s

-- The body of the loop over the tokens, for a token that is no separator.
pub claim : Bool → Text → Option (Text × Text) → Cmdline → Cmdline
claim false tok (some (key, value)) s = claim_pair tok key value s
claim false tok none s = claim_plain tok s
claim true tok (some kv) s = add_env tok s
claim true tok none s = add_arg tok s

-- `tok[0] == '-' && tok[1] == '-' && tok[2] == '\0'`
abbrev pub is_separator : Text → Bool
is_separator tok = same_text (codes "--") tok

-- The loop over the tokens; the Boolean is `after_separator`.
unfoldable pub sort_tokens : Bool → List Text → Cmdline → Cmdline
unfolding claim
sort_tokens after [] s = s
sort_tokens after (tok ∷ toks) s =
    sort_tokens (after || is_separator tok) toks
      (if is_separator tok then s else claim after tok (split_eq tok) s)

-- The tokens but a first one that looks like the path of the kernel.
unfoldable pub skip_kernel : List Text → List Text
skip_kernel [] = []
skip_kernel ([] ∷ toks) = [] ∷ toks
skip_kernel ((c ∷ tok) ∷ toks) = if c == 47 then toks else (c ∷ tok) ∷ toks

-- `cmdline_get`
pub get_param : Text → List (Text × Text) → Option Text
get_param key [] = none
get_param key ((k, v) ∷ params) =
    let rest = get_param key params in if same_text k key then some v else rest

abbrev pub cmdline_get : Text → Cmdline → Option Text
cmdline_get key s = get_param key s.kparams

-- `cmdline_has`
abbrev pub cmdline_has : Text → Cmdline → Bool
cmdline_has flag s = in_table s.kflags flag

-- `if (init_val && init_val[0] != '\0') init_path_val = init_val;`
pub set_init : Option Text → Cmdline → Cmdline
set_init none s = s
set_init (some []) s = s
set_init (some (c ∷ value)) s = record s { init_path_val = c ∷ value }

-- The state that the function starts with.
abbrev pub reset : Text → Cmdline
reset raw = record {
  raw_copy = raw;
  kparams = [];
  kflags = [];
  init_argv = [];
  init_envp = [];
  init_path_val = codes "/init";
}

-- The part behind the copies.
unfoldable pub parse_text : Text → Cmdline
unfolding set_init get_param
parse_text raw =
    let s = sort_tokens false (skip_kernel (tokenize max_tokens raw)) (reset raw) in
    set_init (cmdline_get (codes "init") s) s

-- `cmdline_parse`; `none` is NULL.
unfoldable pub cmdline_parse : Option Text → Cmdline
cmdline_parse none = reset []
cmdline_parse (some raw) = parse_text (take 511 raw)
