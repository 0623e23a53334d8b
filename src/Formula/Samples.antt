-- ===== src/Formula/Samples.antt =====
-- A small formula, after `test_formula` of crates/formula/src/lib.rs, for the tests and witnesses.
use brewdock.Base.{none, some, true, false, List, [], ◌∷◌, Text, ascii}
use brewdock.Formula.{Formula, BottleFile, any}

abbrev pub sample_tag : Text
sample_tag = ascii "arm64_sequoia"

abbrev pub sample_file : BottleFile
sample_file = record { cellar = any; url = ascii "https://b"; sha256 = ascii "dead" }

abbrev pub sample_formula : Text → List Text → Formula
sample_formula name deps = record {
  name = name;
  full_name = name;
  desc = none;
  homepage = none;
  license = none;
  versions = record { stable = ascii "1.0.0"; head = none; bottle = true };
  revision = 0;
  ruby_source_path = none;
  bottle = record {
    stable = some (record {
      rebuild = 0;
      root_url = ascii "https://example.com";
      files = (sample_tag, sample_file) ∷ [];
    });
  };
  urls = record { stable = some (record { url = ascii "https://s"; checksum = none }) };
  pour_bottle_only_if = none;
  keg_only = false;
  dependencies = deps;
  build_dependencies = [];
  uses_from_macos = [];
  requirements = [];
  disabled = false;
  post_install_defined = false;
}
