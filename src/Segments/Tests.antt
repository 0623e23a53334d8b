-- ===== src/Segments/Tests.antt =====
-- The parts of a sample path, and a witness.
use brewdock.Base.{◌≡◌, refl, List, [], ◌∷◌, ascii, text_eq, ok, err}
use brewdock.PostInstall.{SegmentPart, PathSegment}
use brewdock.Relocate.Replace.{begins, contains_text}
use brewdock.Segments.{
  unsupported_post_install_syntax, split_slash, has_slash, validate_path_segment, make_path_segment,
  flush, push_part, push_piece, push_pieces, push_literal, split_parts, validate_segment,
  validate_segments, split_segment_parts_on_slash,
}
use brewdock.Segments.Plain.{IsSplit, IsValid, split_segment_parts_on_slash-IsValid}

program : Unit {0}
unfolding text_eq begins contains_text split_slash has_slash validate_path_segment make_path_segment
    flush push_part push_piece push_pieces push_literal split_parts validate_segment
    validate_segments split_segment_parts_on_slash
program = tt

-- `etc/jq-#{version.major}/conf.d`
abbrev parts : List SegmentPart
parts =
    SegmentPart.literal (ascii "etc/jq-")
    ∷ SegmentPart.version_major
    ∷ SegmentPart.literal (ascii "/conf.d")
    ∷ []

abbrev segments : List PathSegment
segments =
    PathSegment.literal (ascii "etc")
    ∷ PathSegment.interpolated (SegmentPart.literal (ascii "jq-") ∷ SegmentPart.version_major ∷ [])
    ∷ PathSegment.literal (ascii "conf.d")
    ∷ []

split-parts : split_segment_parts_on_slash parts ≡ ok segments
unfolding program
split-parts = refl

split-dots :
    split_segment_parts_on_slash (SegmentPart.literal (ascii "a/../b") ∷ [])
    ≡ err unsupported_post_install_syntax
unfolding program
split-dots = refl

split_segment_parts_on_slash-IsValid_example : IsSplit segments × IsValid segments
split_segment_parts_on_slash-IsValid_example =
    split_segment_parts_on_slash-IsValid parts split-parts
