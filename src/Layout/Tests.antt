-- ===== src/Layout/Tests.antt =====
-- The directories under the production prefix.
use brewdock.Base.{◌≡◌, refl, ascii}
use brewdock.Paths.{components, join_text}
use brewdock.Layout.{production, with_root, cellar, blob_dir, var_brewdock}

program : Unit {0}
unfolding components join_text production with_root cellar blob_dir var_brewdock
program = tt

blob_dir-with_root :
    blob_dir (with_root (components (ascii "/tmp/test")))
    ≡ components (ascii "/tmp/test/opt/homebrew/var/brewdock/blobs")
unfolding program
blob_dir-with_root = refl

cellar-production : cellar production ≡ components (ascii "/opt/homebrew/Cellar")
unfolding program
cellar-production = refl
