-- ===== src/Platform/Tests.antt =====
-- Bottles for sample hosts, and witnesses.
use brewdock.Base.{◌≡◌, refl, true, none, some, [], ascii, text_eq, lookup}
use brewdock.Formula.{Formula}
use brewdock.Formula.Samples.{sample_formula, sample_tag, sample_file}
use brewdock.Formula.Select.{
  select_bottle, selected, first_bottle, bottle_candidates, apple_silicon_candidates,
  default_bottle_candidates, names_from, arm64,
}
use brewdock.Version.Scan.{strip_prefix}
use brewdock.Platform.{
  HostTag, macos_major, macos_codename_of, macos_major_from_codename, major_in, split_once, arch,
}
use brewdock.Platform.OsVersion.{OsVersion, display, parse_os_version, parse_os_version-display}
use brewdock.Base.{◌≤◌, ok, arith}
use brewdock.Base.Decimal.{u16_max}
use brewdock.Platform.Bottle.{runs_on, select_bottle-runs_on}

program : Unit {0}
unfolding select_bottle first_bottle bottle_candidates apple_silicon_candidates
    default_bottle_candidates names_from strip_prefix macos_major macos_codename_of
    macos_major_from_codename major_in split_once text_eq lookup arch
program = tt

abbrev tahoe : HostTag
tahoe = arm64 (ascii "tahoe")

abbrev the_app : Formula
the_app = sample_formula (ascii "app") []

arch-tahoe : arch tahoe ≡ ascii "arm64"
unfolding program
arch-tahoe = refl

-- An older host cannot use the bottle.
select-sonoma : select_bottle the_app (arm64 (ascii "sonoma")) ≡ none
unfolding program
select-sonoma = refl

major-tahoe : macos_major tahoe ≡ some 26
unfolding program
major-tahoe = refl

select-tahoe : select_bottle the_app tahoe ≡ some (selected sample_tag sample_file)
unfolding program
select-tahoe = refl

select_bottle-runs_on_example : runs_on 26 sample_tag ≡ true
select_bottle-runs_on_example = select_bottle-runs_on the_app tahoe major-tahoe select-tahoe

abbrev sonoma_release : OsVersion
sonoma_release = record { major = 14; minor = 7; patch = 1 }

small : 14 ≤ u16_max
small = ground arith

parse_os_version-display_example :
    parse_os_version (λ _. []) (display sonoma_release) ≡ ok sonoma_release
parse_os_version-display_example =
    parse_os_version-display (λ _. []) sonoma_release small (ground arith) (ground arith)
