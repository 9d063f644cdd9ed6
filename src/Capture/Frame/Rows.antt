-- ===== src/Capture/Frame/Rows.antt =====
-- The copy of a validated frame of crates/mega-capture/src/frame.rs, row by row and byte by byte.
use stalky.Capture.{complete, FrameStatus-discrete}
use stalky.Capture.Frame.{
  FrameInput, copy_rows, validate_frame_input, rows, bytes_per_pixel, max_frame_width,
  max_frame_height, max_frame_bytes, ingest, FrameIngest, commit_frame, frame_of,
}
use stalky.Prelude.{
  refl, ℕ, ◌≡◌, List, ok, ◌*◌, ◌<◌, ◌≤◌, length, some, [], arith, suc, ◌∷◌, zero, drop, same→eq,
  take, ◌++◌, get_elem?, ◌+◌, length-take, get_elem?-left, length-drop, ◌∙◌, get_elem?-take, ap,
  get_elem?-right, get_elem?-drop, length-append, sym,
}

-- What the checks of a frame come to.
pub record IsSound (input : FrameInput) : Type 0 where
  pub is_complete : input.status ≡ complete
  pub has_width : 0 < input.width
  pub has_height : 0 < input.height
  pub width_bound : input.width ≤ max_frame_width
  pub height_bound : input.height ≤ max_frame_height
  pub stride_bound : input.width * bytes_per_pixel ≤ input.bytes_per_row
  pub data_bound : input.bytes_per_row * input.height ≤ length input.bytes
  pub data_size_bound : input.data_size ≤ max_frame_bytes
  pub size_bound : input.width * bytes_per_pixel * input.height ≤ max_frame_bytes

pub validate-IsSound :
    (input : FrameInput) (n : ℕ)
    → validate_frame_input input ≡ ok n
    → IsSound input × (n ≡ input.width * bytes_per_pixel * input.height)
unfolding validate_frame_input
validate-IsSound input n h = (
  record {
    is_complete = ground (arith, same→eq FrameStatus-discrete input.status complete);
    has_width = ground arith;
    has_height = ground arith;
    width_bound = ground arith;
    height_bound = ground arith;
    stride_bound = ground arith;
    data_bound = ground arith;
    data_size_bound = ground arith;
    size_bound = ground arith;
  },
  ground arith,
)

-- The copy `out` of `h` rows of `len` bytes, out of rows of `stride` bytes: of the right length, and
-- with each byte where it belongs.
abbrev pub Copies : ℕ → ℕ → ℕ → List ℕ → List ℕ → Type 0
Copies h stride len bytes out =
    (length out ≡ len * h)
    × ((y x : ℕ) → y < h → x < len → get_elem? out (len * y + x) ≡ get_elem? bytes (stride * y + x))

length-row :
    (len stride : ℕ) (bytes : List ℕ)
    → len ≤ stride
    → stride ≤ length bytes
    → length (take len (take stride bytes)) ≡ len
length-row len stride bytes l d =
    length-take len (take stride bytes) (omega (arith, length-take stride bytes d))

copy_row :
    (h stride len : ℕ) (bytes out : List ℕ)
    → len ≤ stride
    → stride ≤ length bytes
    → Copies h stride len (drop stride bytes) out
    → Copies (suc h) stride len bytes (take len (take stride bytes) ++ out)
copy_row h stride len bytes out l d (e, f) =
    (length-append row out ∙ omega (arith, length-row len stride bytes l d), pixel)
  where
    row : List ℕ
    row = take len (take stride bytes)

    pixel :
        (y x : ℕ)
        → y < suc h
        → x < len
        → get_elem? (row ++ out) (len * y + x) ≡ get_elem? bytes (stride * y + x)
    pixel zero x p q =
        get_elem?-left row out (len * 0 + x) (omega (arith, length-row len stride bytes l d))
        ∙ get_elem?-take len (len * 0 + x) (take stride bytes) (omega arith)
        ∙ get_elem?-take stride (len * 0 + x) bytes (omega arith)
        ∙ ap (get_elem? bytes) (omega arith)
    pixel (suc y) x p q =
        get_elem?-right row out (len * y + x) (len * suc y + x)
          (omega (arith, length-row len stride bytes l d))
        ∙ f y x (omega arith) q
        ∙ get_elem?-drop stride (stride * y + x) (stride * suc y + x) bytes (omega arith)

no_rows : (stride h : ℕ) → 0 < stride → stride * suc h ≤ 0 → ⊥
no_rows stride h s d = omega arith

pub copy_rows-Copies :
    (h stride len : ℕ) (bytes : List ℕ)
    → 0 < stride
    → len ≤ stride
    → stride * h ≤ length bytes
    → (out : List ℕ) × (copy_rows len (rows stride h bytes) ≡ some out)
      × Copies h stride len bytes out
unfolding copy_rows rows
copy_rows-Copies zero stride len bytes s l d = ([], refl, (omega arith, λ y x p q. grind arith))
copy_rows-Copies (suc h) stride len [] s l d = elim (no_rows stride h s d) [ ]
copy_rows-Copies (suc h) stride len (x ∷ xs) s l d =
    let bytes = x ∷ xs in
    let (out, e, c) =
      copy_rows-Copies h stride len (drop stride bytes) s l
        (omega (arith, length-drop stride bytes)) in
    (
      take len (take stride bytes) ++ out,
      ground (arith, e, length-take stride bytes (omega arith)),
      copy_row h stride len bytes out l (omega arith) c,
    )

ingest-copied :
    (hash : List ℕ → ℕ) (s : FrameIngest) (input : FrameInput) (n : ℕ) (bytes : List ℕ)
    → validate_frame_input input ≡ ok n
    → copy_rows (input.width * bytes_per_pixel) (rows input.bytes_per_row input.height input.bytes)
      ≡ some bytes
    → ingest hash s input ≡ some (commit_frame hash s (frame_of input bytes), ok tt)
unfolding ingest
ingest-copied hash s input n bytes h e = rw (h, e, ingest) refl

-- A frame that passes the checks is committed, and no slice of its rows panics: `n` bytes, the size
-- that the checks return, four for each pixel without padding, and the byte at place `x` of row `y`
-- is the one that the input has there.
pub ingest-Copies :
    (hash : List ℕ → ℕ) (s : FrameIngest) (input : FrameInput) (n : ℕ)
    → validate_frame_input input ≡ ok n
    → (bytes : List ℕ) × (ingest hash s input
        ≡ some (commit_frame hash s (frame_of input bytes), ok tt))
      × (length bytes ≡ n)
      × Copies input.height input.bytes_per_row (input.width * bytes_per_pixel) input.bytes bytes
ingest-Copies hash s input n h =
    let (sound, size) = validate-IsSound input n h in
    let (out, e, c) =
      copy_rows-Copies input.height input.bytes_per_row (input.width * bytes_per_pixel) input.bytes
        (omega (arith, sound)) sound.stride_bound sound.data_bound in
    (out, ingest-copied hash s input n out h e, c.0 ∙ sym size, c)
