-- ===== src/Segments.antt =====
-- The segments of a path in a post-install program (crates/analysis/src/post_install.rs): splitting the
-- parts of an interpolated text at its slashes. The errors are not told apart by their messages.
pub mod Plain
mod Tests
use brewdock.Base.{
  ℕ, Bool, true, false, ◌||◌, Option, none, some, List, [], ◌∷◌, ◌++◌, Text, ascii, text_eq,
  if◌then◌else◌, ◌==◌, Result, ok, err, ◌>>=◌,
}
use brewdock.PostInstall.{SegmentPart, PathSegment}
use brewdock.Relocate.Replace.{contains_text}

pub data AnalysisError : Type 0 where
  unsupported_post_install_syntax : AnalysisError

-- `split('/')`, whose pieces are at least one: the first, and the others.
unfoldable pub split_slash : Text → Text × List Text
split_slash [] = ([], [])
split_slash (b ∷ s) =
    let (piece, pieces) = split_slash s in
    if b == b'/' then ([], piece ∷ pieces) else (b ∷ piece, pieces)

unfoldable pub has_slash : Text → Bool
has_slash [] = false
has_slash (b ∷ s) = b == b'/' || has_slash s

unfoldable pub validate_path_segment : Text → Result AnalysisError Text
unfolding text_eq contains_text
validate_path_segment segment =
    if text_eq segment []
      || text_eq segment (ascii ".")
      || text_eq segment (ascii "..")
      || contains_text (ascii "#{") segment
    then err unsupported_post_install_syntax
    else ok segment

unfoldable pub make_path_segment : List SegmentPart → PathSegment
make_path_segment (SegmentPart.literal s ∷ []) = PathSegment.literal s
make_path_segment parts = PathSegment.interpolated parts

-- The segments that are finished, and the parts of the next one.
pub record Splitting : Type 0 where
  pub segments : List PathSegment
  pub current : List SegmentPart

-- `if !current.is_empty() { segments.push(make_path_segment(take(&mut current))) }`
unfoldable pub flush : Splitting → Splitting
unfolding make_path_segment
flush state = elim state.current [
  | [] ↦ state
  | part ∷ parts ↦ record {
    segments = state.segments ++ make_path_segment (part ∷ parts) ∷ [];
    current = [];
  }
]

unfoldable pub push_part : SegmentPart → Splitting → Splitting
push_part part state = record state { current = state.current ++ part ∷ [] }

unfoldable pub push_piece : Text → Splitting → Splitting
unfolding push_part
push_piece [] state = state
push_piece (b ∷ s) state = push_part (SegmentPart.literal (b ∷ s)) state

-- The pieces but the first, each behind a slash.
unfoldable pub push_pieces : List Text → Splitting → Splitting
unfolding flush push_piece
push_pieces [] state = state
push_pieces (piece ∷ pieces) state = push_pieces pieces (push_piece piece (flush state))

unfoldable pub push_literal : Text → Splitting → Splitting
unfolding has_slash split_slash push_piece push_pieces push_part
push_literal text state =
    let (piece, pieces) = split_slash text in
    if has_slash text
    then push_pieces pieces (push_piece piece state)
    else push_part (SegmentPart.literal text) state

unfoldable pub split_parts : List SegmentPart → Splitting → Splitting
unfolding push_literal push_part
split_parts [] state = state
split_parts (SegmentPart.literal text ∷ parts) state = split_parts parts (push_literal text state)
split_parts (part ∷ parts) state = split_parts parts (push_part part state)

unfoldable pub validate_segment : PathSegment → Result AnalysisError Unit
unfolding validate_path_segment
validate_segment (PathSegment.literal s) = do _ ← validate_path_segment s; ok tt
validate_segment (PathSegment.interpolated []) = err unsupported_post_install_syntax
validate_segment (PathSegment.interpolated (part ∷ parts)) = ok tt

unfoldable pub validate_segments : List PathSegment → Result AnalysisError Unit
unfolding validate_segment
validate_segments [] = ok tt
validate_segments (segment ∷ segments) = do _ ← validate_segment segment; validate_segments segments

unfoldable pub split_segment_parts_on_slash :
    List SegmentPart → Result AnalysisError (List PathSegment)
unfolding split_parts flush validate_segments
split_segment_parts_on_slash parts =
    let segments = (flush (split_parts parts (record { segments = []; current = [] }))).segments in
    do _ ← validate_segments segments; ok segments
