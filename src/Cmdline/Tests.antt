-- ===== src/Cmdline/Tests.antt =====
-- Runs of the parser, and its claim at a command line.
use adr_os.Prelude.{none, some, [], ◌∷◌, ◌≡◌, refl, true}
use adr_os.Prelude.Text.{codes, same_text, in_table}
use adr_os.Cmdline.{
  Text, cmdline_has, cmdline_parse, parse_text, sort_tokens, skip_kernel, tokenize, split_eq,
  claim_plain, is_known_flag, has_char, claim_pair, is_known_kv_key,
}

abbrev line : Text
line = codes "/boot/k init=/bin/sh quiet A=1 foo m.x -- bar quiet -- B=2"

args : (cmdline_parse (some line)).init_argv ≡ codes "foo" ∷ codes "bar" ∷ codes "quiet" ∷ []
unfolding same_text cmdline_parse parse_text sort_tokens skip_kernel tokenize split_eq claim_plain
    is_known_flag has_char claim_pair is_known_kv_key
args = refl

envs : (cmdline_parse (some line)).init_envp ≡ codes "A=1" ∷ codes "B=2" ∷ []
unfolding same_text cmdline_parse parse_text sort_tokens skip_kernel tokenize split_eq claim_plain
    is_known_flag has_char claim_pair is_known_kv_key
envs = refl

path : (cmdline_parse (some line)).init_path_val ≡ codes "/bin/sh"
unfolding same_text cmdline_parse parse_text sort_tokens skip_kernel tokenize split_eq claim_plain
    is_known_flag has_char claim_pair is_known_kv_key
path = refl

quiet : cmdline_has (codes "quiet") (cmdline_parse (some line)) ≡ true
unfolding same_text in_table cmdline_parse parse_text sort_tokens skip_kernel tokenize split_eq
    claim_plain is_known_flag has_char claim_pair is_known_kv_key
quiet = refl

defaults : (cmdline_parse none).init_path_val ≡ codes "/init"
unfolding cmdline_parse
defaults = refl
