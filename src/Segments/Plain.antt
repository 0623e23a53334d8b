-- ===== src/Segments/Plain.antt =====
-- What crates/analysis/src/post_install.rs guarantees of the segments that it splits.
use brewdock.Base.{
  ◌≡◌, ◌≢◌, refl, subst, false, List, [], ◌∷◌, ◌++◌, Text, ascii, text_eq, arith, Bool-cases, inl,
  inr, ◌==◌, ok, ok_of_bind, ok_eq, err_ok,
}
use brewdock.PostInstall.{SegmentPart, PathSegment}
use brewdock.Segments.{
  split_slash, has_slash, validate_path_segment, make_path_segment, Splitting, flush, push_part,
  push_piece, push_pieces, push_literal, split_parts, validate_segment, validate_segments,
  split_segment_parts_on_slash,
}

-- No literal part has a slash.
abbrev pub HasNoSlash : List SegmentPart → Type 0
HasNoSlash [] = Unit
HasNoSlash (SegmentPart.literal s ∷ parts) = (has_slash s ≡ false) × HasNoSlash parts
HasNoSlash (part ∷ parts) = HasNoSlash parts

abbrev pub IsSplit : List PathSegment → Type 0
IsSplit [] = Unit
IsSplit (PathSegment.literal s ∷ segments) = (has_slash s ≡ false) × IsSplit segments
IsSplit (PathSegment.interpolated parts ∷ segments) = HasNoSlash parts × IsSplit segments

abbrev AllNoSlash : List Text → Type 0
AllNoSlash [] = Unit
AllNoSlash (s ∷ texts) = (has_slash s ≡ false) × AllNoSlash texts

split_slash-HasNoSlash :
    (s : Text) → (has_slash (split_slash s).0 ≡ false) × AllNoSlash (split_slash s).1
unfolding split_slash has_slash
split_slash-HasNoSlash [] = (refl, tt)
split_slash-HasNoSlash (b ∷ s) =
    let (first, others) = split_slash-HasNoSlash s in
    elim (Bool-cases (b == b'/')) [
      | inl e ↦ rw e (refl, (first, others))
      | inr e ↦ rw e (rw e first, others)
    ]

HasNoSlash-snoc :
    (parts : List SegmentPart) (part : SegmentPart)
    → HasNoSlash parts
    → HasNoSlash (part ∷ [])
    → HasNoSlash (parts ++ part ∷ [])
HasNoSlash-snoc [] part h k = k
HasNoSlash-snoc (SegmentPart.literal s ∷ parts) part h k = (h.0, HasNoSlash-snoc parts part h.1 k)
HasNoSlash-snoc (_ ∷ parts) part h k = HasNoSlash-snoc parts part h k

IsSplit-snoc :
    (segments : List PathSegment) (segment : PathSegment)
    → IsSplit segments
    → IsSplit (segment ∷ [])
    → IsSplit (segments ++ segment ∷ [])
IsSplit-snoc [] segment h k = k
IsSplit-snoc (PathSegment.literal s ∷ segments) segment h k =
    (h.0, IsSplit-snoc segments segment h.1 k)
IsSplit-snoc (PathSegment.interpolated parts ∷ segments) segment h k =
    (h.0, IsSplit-snoc segments segment h.1 k)

make_path_segment-IsSplit :
    (parts : List SegmentPart) → HasNoSlash parts → IsSplit (make_path_segment parts ∷ [])
unfolding make_path_segment
make_path_segment-IsSplit [] h = (tt, tt)
make_path_segment-IsSplit (SegmentPart.literal s ∷ []) h = (h.0, tt)
make_path_segment-IsSplit (SegmentPart.literal s ∷ part ∷ parts) h = (h, tt)
make_path_segment-IsSplit (_ ∷ parts) h = (h, tt)

-- What holds between the rounds.
abbrev IsSplitting : Splitting → Type 0
IsSplitting state = IsSplit state.segments × HasNoSlash state.current

flush-IsSplitting :
    (segments : List PathSegment) (current : List SegmentPart)
    → IsSplit segments
    → HasNoSlash current
    → IsSplitting (flush (record { segments = segments; current = current }))
unfolding flush
flush-IsSplitting segments [] h k = (h, tt)
flush-IsSplitting segments (part ∷ parts) h k = (
  IsSplit-snoc segments (make_path_segment (part ∷ parts)) h
      (make_path_segment-IsSplit (part ∷ parts) k),
  tt,
)

push_part-IsSplitting :
    (part : SegmentPart) (state : Splitting)
    → HasNoSlash (part ∷ [])
    → IsSplitting state
    → IsSplitting (push_part part state)
unfolding push_part
push_part-IsSplitting part state k h = (h.0, HasNoSlash-snoc state.current part h.1 k)

push_piece-IsSplitting :
    (piece : Text) (state : Splitting)
    → has_slash piece ≡ false
    → IsSplitting state
    → IsSplitting (push_piece piece state)
unfolding push_piece
push_piece-IsSplitting [] state k h = h
push_piece-IsSplitting (b ∷ s) state k h =
    push_part-IsSplitting (SegmentPart.literal (b ∷ s)) state (k, tt) h

push_pieces-IsSplitting :
    (pieces : List Text) (state : Splitting)
    → AllNoSlash pieces
    → IsSplitting state
    → IsSplitting (push_pieces pieces state)
unfolding push_pieces
push_pieces-IsSplitting [] state k h = h
push_pieces-IsSplitting (piece ∷ pieces) state k h =
    push_pieces-IsSplitting pieces (push_piece piece (flush state)) k.1 (
      push_piece-IsSplitting piece (flush state) k.0
        (flush-IsSplitting state.segments state.current h.0 h.1))

push_literal-IsSplitting :
    (text : Text) (state : Splitting) → IsSplitting state → IsSplitting (push_literal text state)
unfolding push_literal
push_literal-IsSplitting text state h =
    let (first, others) = split_slash-HasNoSlash text in
    elim (Bool-cases (has_slash text)) [
      | inl e ↦ rw e (
          push_pieces-IsSplitting (split_slash text).1 (push_piece (split_slash text).0 state)
            others (push_piece-IsSplitting (split_slash text).0 state first h))
      | inr e ↦ rw e (push_part-IsSplitting (SegmentPart.literal text) state (e, tt) h)
    ]

split_parts-IsSplitting :
    (parts : List SegmentPart) (state : Splitting)
    → IsSplitting state
    → IsSplitting (split_parts parts state)
unfolding split_parts
split_parts-IsSplitting [] state h = h
split_parts-IsSplitting (SegmentPart.literal text ∷ parts) state h =
    split_parts-IsSplitting parts (push_literal text state) (push_literal-IsSplitting text state h)
split_parts-IsSplitting (part ∷ parts) state h =
    split_parts-IsSplitting parts (push_part part state) (push_part-IsSplitting part state tt h)

-- What the check of a literal segment demands, and of an interpolated one.
abbrev pub IsValid : List PathSegment → Type 0
IsValid [] = Unit
IsValid (PathSegment.literal s ∷ segments) =
    (text_eq s [] ≡ false)
    × (text_eq s (ascii ".") ≡ false)
    × (text_eq s (ascii "..") ≡ false)
    × IsValid segments
IsValid (PathSegment.interpolated parts ∷ segments) = (parts ≢ []) × IsValid segments

validate_path_segment-ok :
    (s segment : Text)
    → validate_path_segment s ≡ ok segment
    → (text_eq s [] ≡ false) × (text_eq s (ascii ".") ≡ false) × (text_eq s (ascii "..") ≡ false)
unfolding validate_path_segment
validate_path_segment-ok s segment p = ground (arith, p)

validate_segments-IsValid :
    (segments : List PathSegment) → validate_segments segments ≡ ok tt → IsValid segments
unfolding validate_segments validate_segment
validate_segments-IsValid [] e = tt
validate_segments-IsValid (PathSegment.interpolated [] ∷ segments) e = absurd (err_ok e)
validate_segments-IsValid (PathSegment.interpolated (part ∷ parts) ∷ segments) e =
    (λ none. absurd (ground (arith, none)), validate_segments-IsValid segments e)
validate_segments-IsValid (PathSegment.literal s ∷ segments) e =
    let (done, e', v) = ok_of_bind (validate_segment (PathSegment.literal s)) _ e in
    let (segment, e'', p) = ok_of_bind (validate_path_segment s) _ v in
    let (a, b, c) = validate_path_segment-ok s segment p in
    (a, b, c, validate_segments-IsValid segments e')

-- Splitting the parts of an interpolated path at their slashes, if it succeeds, gives segments none of
-- whose literal parts has a slash, whose literal segments are not empty and neither one dot nor two,
-- and whose interpolated segments have a part.
pub split_segment_parts_on_slash-IsValid :
    (parts : List SegmentPart) {segments : List PathSegment}
    → split_segment_parts_on_slash parts ≡ ok segments
    → IsSplit segments × IsValid segments
unfolding split_segment_parts_on_slash
split_segment_parts_on_slash-IsValid parts {segments} e =
    let state : Splitting = split_parts parts (record { segments = []; current = [] }) in
    let (done, e', v) = ok_of_bind (validate_segments (flush state).segments) _ e in
    let split = split_parts-IsSplitting parts (record { segments = []; current = [] }) (tt, tt) in
    (
      subst IsSplit (ok_eq e') (flush-IsSplitting state.segments state.current split.0 split.1).0,
      subst IsValid (ok_eq e') (validate_segments-IsValid (flush state).segments v),
    )
