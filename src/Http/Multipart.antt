-- ===== src/Http/Multipart.antt =====
-- The forms of src/WebServer.cpp: `headerParam` and `parseMultipart`.
use crosspoint_simulator_ios.Base.{
  ℕ, zero, suc, List, [], ◌∷◌, ◌++◌, none, some, if◌then◌else◌, ◌==◌, ◌&&◌, Bytes, length,
}
use crosspoint_simulator_ios.Base.Search.{find, split_at, strip_prefix}
use crosspoint_simulator_ios.Base.Text.{codes}
use crosspoint_simulator_ios.Web.Multipart.{crlf}

-- `MultipartPart`; its data is `content` here.
pub record MultipartPart : Type 0 where
  pub name : Bytes
  pub filename : Bytes
  pub content : Bytes

-- `headerParam`
unfoldable pub header_param : Bytes → Bytes → Bytes
header_param header key = elim (find (key ++ codes "=" ++ (34 ∷ [])) header) [
  | none ↦ []
  | some (a, v) ↦ elim (split_at 34 v) [ none ↦ [] | some (value, b) ↦ value ]
]

-- The boundary behind "boundary=", in quotes or up to a semicolon.
unfoldable pub boundary_of : Bytes → Bytes
boundary_of [] = []
boundary_of (c ∷ cs) =
    if c == 34
    then elim (split_at 34 cs) [ none ↦ cs | some (b, rest) ↦ b ]
    else elim (split_at 59 (c ∷ cs)) [ none ↦ c ∷ cs | some (b, rest) ↦ b ]

-- The text without a line break at its end.
unfoldable pub drop_crlf : Bytes → Bytes
drop_crlf [] = []
drop_crlf (c ∷ cs) =
    let rest = drop_crlf cs in
    elim cs [
      | [] ↦ c ∷ []
      | d ∷ [] ↦ if (c == 13) && (d == 10) then [] else c ∷ rest
      | d ∷ e ∷ es ↦ c ∷ rest
    ]

-- The data of a part whose content is followed by a boundary. If the boundary follows the headers at once,
-- the two bytes before it are the line break of the headers, and the length that is computed from
-- them is below 0: `substr` then takes the rest of the body.
unfoldable pub part_data : Bytes → Bytes → Bytes
part_data [] content = content
part_data (c ∷ cs) content = drop_crlf (c ∷ cs)

-- A part goes into the result if it has a name.
abbrev pub keep_part : MultipartPart → List MultipartPart → List MultipartPart
keep_part part rest = elim part.name [ [] ↦ rest | c ∷ cs ↦ part ∷ rest ]

-- The loop of `parseMultipart`, at the text behind a boundary. A round passes a boundary, so the
-- length of the body is fuel enough.
unfoldable pub multipart_rounds : ℕ → Bytes → Bytes → List MultipartPart
multipart_rounds zero boundary text = []
multipart_rounds (suc fuel) boundary text = elim (strip_prefix (codes "--") text) [
  | some end ↦ []
  | none ↦
      let from : Bytes = elim (strip_prefix crlf text) [ none ↦ text | some r ↦ r ] in
      elim (find (crlf ++ crlf) from) [
        | none ↦ []
        | some (headers, content) ↦ elim (find boundary content) [
          | none ↦ []
          | some (before, next) ↦
              keep_part
                (record {
                  name = header_param headers (codes "name");
                  filename = header_param headers (codes "filename");
                  content = part_data before content;
                })
                (multipart_rounds fuel boundary next)
        ]
      ]
]

-- `parseMultipart`
unfoldable pub parse_multipart : Bytes → Bytes → List MultipartPart
parse_multipart content_type body = elim (find (codes "boundary=") content_type) [
  | none ↦ []
  | some (a, b) ↦ elim (find (codes "--" ++ boundary_of b) body) [
    | none ↦ []
    | some (before, text) ↦ multipart_rounds (suc (length body)) (codes "--" ++ boundary_of b) text
  ]
]
