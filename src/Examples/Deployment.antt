-- ===== src/Examples/Deployment.antt =====
-- The settings file: a value that is written with quotes, and a key that stays.
use channel_agent.Prelude.{
  ◌≡◌, refl, true, false, some, none, Codes, codes, same_codes, leb, rstrip_codes, lstrip_codes,
  is_white, partition, is_infix, starts_with, if◌then◌else◌,
}
use channel_agent.Config.Rules.{
  TextLibrary, validate, rule_of, unrepresentable, meaning_error, has_shape,
}
use channel_agent.Config.EnvFile.{
  EnvFiles, example_keys, values_of, split_lines, decode_newlines, assignment, insert, unquoted,
  without_last, saved, set_config, read_env, lookup, encryption_key, read_lines,
}
use channel_agent.Config.EnvFile.Update.{assigning}
use channel_agent.Config.EnvFile.Saved.{set_config-read_env, set_config_keeps_encryption_key}

abbrev lib : TextLibrary
lib = record { is_ip = λ s. false; is_http_url = starts_with (codes "http://"); lower = λ s. s }

abbrev content : Codes
content = codes "# main\nENCRYPTION_KEY=abc\nMODEL_FILE=a.gguf\n"

abbrev files : EnvFiles
files = record {
  env = some content;
  example = some (codes "ENCRYPTION_KEY=\nMODEL_FILE=\n");
  backup = none;
}

abbrev key : Codes
key = codes "MODEL_FILE"

abbrev value : Codes
value = codes "b model.gguf"

is_saved : (set_config lib false key value files).0 ≡ saved
unfolding set_config example_keys read_env values_of split_lines decode_newlines assignment
    rstrip_codes lstrip_codes is_white starts_with partition insert same_codes validate rule_of
    unrepresentable is_infix meaning_error has_shape unquoted without_last lookup
is_saved = refl

one_line : leb (assigning key (read_lines content)) 1 ≡ true
unfolding assigning split_lines decode_newlines assignment rstrip_codes lstrip_codes is_white
    starts_with partition same_codes
one_line = refl

set_config-read_env_example :
    (lookup key (read_env (set_config lib false key value files).1.env)
      ≡ (if same_codes key key then some value else lookup key (read_env (some content))))
    × ((set_config lib false key value files).1.backup ≡ some content)
set_config-read_env_example =
    set_config-read_env lib false key value content key files refl one_line is_saved

set_config_keeps_encryption_key_example :
    lookup encryption_key (read_env (set_config lib false encryption_key value files).1.env)
    ≡ lookup encryption_key (read_env files.env)
set_config_keeps_encryption_key_example =
    set_config_keeps_encryption_key lib encryption_key value files
