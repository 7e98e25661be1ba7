-- ===== src/Web/Multipart.antt =====
-- The uploaded file of a form: `multipartBoundary` and `parseMultipartFile` of src/CrossPointWebServer.cpp.
use crosspoint_simulator_ios.Base.{
  ℕ, zero, suc, [], ◌∷◌, ◌++◌, Option, none, some, if◌then◌else◌, Bytes, length,
}
use crosspoint_simulator_ios.Base.Text.{codes}
use crosspoint_simulator_ios.Web.Path.{empty, basename_of}
use crosspoint_simulator_ios.Base.Search.{find_text, find, split_at, strip_prefix}
use crosspoint_simulator_ios.Web.Request.{Request}

abbrev pub crlf : Bytes
crlf = 13 ∷ 10 ∷ []

-- `multipartBoundary`
unfoldable pub multipart_boundary : Request → Bytes
multipart_boundary req = elim (find_text (codes "content-type") req.headers) [
  | none ↦ []
  | some v ↦ elim (find (codes "boundary=") v) [ none ↦ [] | some (a, b) ↦ codes "--" ++ b ]
]

-- The content of a part up to the next boundary, and what is behind that boundary's line break.
unfoldable pub part_content : Bytes → Bytes → Option (Bytes × Bytes × Bytes)
part_content boundary part =
    let from : Bytes = elim (strip_prefix crlf part) [ none ↦ part | some r ↦ r ] in
    elim (find (crlf ++ crlf) from) [
      | none ↦ none
      | some (headers, content) ↦ elim (find (crlf ++ boundary) content) [
        | none ↦ none
        | some (bytes, after) ↦ some (headers, bytes, after)
      ]
    ]

-- The file's name in the headers of a part: `none` if there is none, and then `none` if its quotation
-- is not closed.
unfoldable pub part_filename : Bytes → Option (Option Bytes)
part_filename headers = elim (find (codes "filename=" ++ (34 ∷ [])) headers) [
  | none ↦ none
  | some (a, v) ↦
      some (elim (split_at 34 v) [ none ↦ none | some (name, b) ↦ some (basename_of name) ])
]

-- The loop of `parseMultipartFile`, at the text behind a boundary. A round passes a boundary, so the
-- body's length is fuel enough.
unfoldable pub part_rounds : ℕ → Bytes → Bytes → Option (Bytes × Bytes)
part_rounds zero boundary part = none
part_rounds (suc fuel) boundary part = elim (strip_prefix (codes "--") part) [
  | some end ↦ none
  | none ↦ elim (part_content boundary part) [
    | none ↦ none
    | some (headers, bytes, after) ↦ elim (part_filename headers) [
      | some (some name) ↦ some (name, bytes)
      | some none ↦ none
      | none ↦ elim (find boundary (crlf ++ (boundary ++ after))) [
        | none ↦ none
        | some (a, next) ↦ part_rounds fuel boundary next
      ]
    ]
  ]
]

-- `parseMultipartFile`: the file's name and its bytes.
unfoldable pub parse_multipart_file : Request → Option (Bytes × Bytes)
parse_multipart_file req =
    let boundary = multipart_boundary req in
    if empty boundary then none else elim (find boundary req.body) [
      | none ↦ none
      | some (a, part) ↦ part_rounds (length req.body) boundary part
    ]
