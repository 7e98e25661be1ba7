-- ===== src/Web/Upload.antt =====
-- The name of an uploaded file in src/CrossPointWebServer.cpp.
use crosspoint_simulator_ios.Base.{
  ℕ, zero, suc, ◌≡◌, true, [], ◌∷◌, ◌++◌, Option, none, some, Bytes, Option-cases, inl, inr,
  Bool-cases, length, subst,
}
use crosspoint_simulator_ios.Base.Text.{codes}
use crosspoint_simulator_ios.Web.Path.{empty}
use crosspoint_simulator_ios.Web.PathLaws.{no_slash, basename-IsTail}
use crosspoint_simulator_ios.Base.Search.{find, strip_prefix, split_at}
use crosspoint_simulator_ios.Web.Request.{Request}
use crosspoint_simulator_ios.Web.Multipart.{
  crlf, multipart_boundary, part_content, part_filename, part_rounds, parse_multipart_file,
}

-- The name of a file that a form gives has no slash.
abbrev pub HasName : Option (Bytes × Bytes) → Type 0
HasName none = Unit
HasName (some (name, bytes)) = no_slash name ≡ true

abbrev pub HasPartName : Option (Option Bytes) → Type 0
HasPartName none = Unit
HasPartName (some none) = Unit
HasPartName (some (some name)) = no_slash name ≡ true

part_filename-HasPartName : (headers : Bytes) → HasPartName (part_filename headers)
unfolding part_filename
part_filename-HasPartName headers =
    elim (Option-cases (find (codes "filename=" ++ (34 ∷ [])) headers)) [
      | inl missing ↦ rw (part_filename, missing) tt
      | inr ((a, v), found) ↦ elim (Option-cases (split_at 34 v)) [
        | inl open' ↦ rw (part_filename, found, open') tt
        | inr ((name, b), closed) ↦
            rw (part_filename, found, closed) (basename-IsTail name).no_slash
      ]
    ]

part_rounds-HasName : (fuel : ℕ) (boundary part : Bytes) → HasName (part_rounds fuel boundary part)
unfolding part_rounds
part_rounds-HasName zero boundary part = tt
part_rounds-HasName (suc fuel) boundary part =
    elim (Option-cases (strip_prefix (codes "--") part)) [
      | inr (r, closing) ↦ rw (part_rounds, closing) tt
      | inl open' ↦ elim (Option-cases (part_content boundary part)) [
        | inl bad ↦ rw (part_rounds, open', bad) tt
        | inr ((headers, bytes, after), good) ↦ elim (Option-cases (part_filename headers)) [
          | inl field ↦ elim (Option-cases (find boundary (crlf ++ (boundary ++ after)))) [
            | inl last ↦ rw (part_rounds, open', good, field, last) tt
            | inr ((a, next), more) ↦
                rw (part_rounds, open', good, field, more) (part_rounds-HasName fuel boundary next)
          ]
          | inr (none, broken) ↦ rw (part_rounds, open', good, broken) tt
          | inr (some name, file) ↦
              rw (part_rounds, open', good, file)
                (subst HasPartName file (part_filename-HasPartName headers))
        ]
      ]
    ]

pub parse_multipart_file-HasName : (req : Request) → HasName (parse_multipart_file req)
unfolding parse_multipart_file
parse_multipart_file-HasName req = elim (Bool-cases (empty (multipart_boundary req))) [
  | inl without ↦ rw (parse_multipart_file, without) tt
  | inr with' ↦ elim (Option-cases (find (multipart_boundary req) req.body)) [
    | inl missing ↦ rw (parse_multipart_file, with', missing) tt
    | inr ((a, part), found) ↦
        rw (parse_multipart_file, with', found)
          (part_rounds-HasName (length req.body) (multipart_boundary req) part)
  ]
]
