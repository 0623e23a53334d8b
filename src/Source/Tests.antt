-- ===== src/Source/Tests.antt =====
-- Requirements of sample formulae.
use brewdock.Base.{◌≡◌, refl, true, false, some, none, [], ascii, text_eq}
use brewdock.Base.Decimal.{parse_digits, parse_unsigned, at_most}
use brewdock.Formula.{NamedEntry, name, detailed}
use brewdock.Formula.Samples.{sample_tag}
use brewdock.Platform.{
  macos_major, macos_codename_of, macos_major_from_codename, major_in, split_once,
}
use brewdock.Source.{
  before_first, after_last, after_last_from, source_archive_filename, ends_with, has_extension,
  is_tar_gz, parse_requirement_major, both, is_satisfied_system_requirement, is_satisfied_detail,
  matches_macos_version_bound,
}

program : Unit {0}
unfolding text_eq parse_digits parse_unsigned at_most macos_major macos_codename_of
    macos_major_from_codename major_in split_once before_first after_last after_last_from
    source_archive_filename ends_with has_extension is_tar_gz parse_requirement_major both
    is_satisfied_system_requirement is_satisfied_detail matches_macos_version_bound
program = tt

abbrev macos_26 : NamedEntry
macos_26 = record { name = ascii "macos"; version = some (ascii "26"); contexts = []; specs = [] }

is_satisfied-macos : is_satisfied_system_requirement sample_tag none (detailed macos_26) ≡ false
unfolding program
is_satisfied-macos = refl

is_satisfied-arch : is_satisfied_system_requirement sample_tag none (name (ascii "arch")) ≡ true
unfolding program
is_satisfied-arch = refl

is_tar_gz-query : is_tar_gz (ascii "https://x.org/v1/jq-1.7.TAR.gz?raw=1") ≡ true
unfolding program
is_tar_gz-query = refl

is_tar_gz-hidden : is_tar_gz (ascii "https://x.org/.tgz") ≡ false
unfolding program
is_tar_gz-hidden = refl
