-- ===== src/Tests/OptionRuns.antt =====
-- The default values pass the check.
use git_spdx.Common.{◌≡◌, ◌↔◌, refl, true, false, none, codes, equal, []}
use git_spdx.Options.{
  Options, natural, validate_options, IsValid, is_group, repository_argument, validate_options_iff,
}

abbrev defaults : Options
defaults = record {
  backend = codes "git";
  max_blob_size = natural 1048576;
  legal_blob_size = natural 8388608;
  object_buffer = natural 0;
  object_batch = natural 64;
  group = codes "all";
  monthly = false;
  details = false;
}

defaults_run : validate_options defaults none true ≡ none
unfolding validate_options is_group equal
defaults_run = refl

validate_options_iff_example : (validate_options defaults none true ≡ none) ↔ IsValid defaults true
validate_options_iff_example = validate_options_iff defaults true

default_repository : repository_argument [] ≡ codes "."
unfolding repository_argument
default_repository = refl
