-- ===== src/Http/Forms.antt =====
-- Forms that src/WebServer.cpp parses: what `parseMultipart` gives for a form written as RFC 7578 has it.
use crosspoint_simulator_ios.Base.{
  ◌≡◌, ◌≢◌, false, List, [], ◌∷◌, ◌++◌, Option, none, some, Bytes, ◌==◌, All,
}
use crosspoint_simulator_ios.Base.Search.{find}
use crosspoint_simulator_ios.Base.Text.{codes}
use crosspoint_simulator_ios.Web.Multipart.{crlf}
use crosspoint_simulator_ios.Http.Multipart.{MultipartPart}

-- A part of a form: a field, or a file with its name.
pub record Piece : Type 0 where
  pub name : Bytes
  pub filename : Option Bytes
  pub content : Bytes

abbrev pub file_parameter : Option Bytes → Bytes
file_parameter none = []
file_parameter (some f) = codes "; filename=" ++ (34 ∷ (f ++ (34 ∷ [])))

-- The headers of a part as a browser writes them, in quotes and the name first.
abbrev pub headers_text : Bytes → Option Bytes → Bytes
headers_text name filename =
    codes "Content-Disposition: form-data; name=" ++ (34 ∷ (name ++ (34 ∷ file_parameter filename)))

abbrev pub headers_of : Piece → Bytes
headers_of p = headers_text p.name p.filename

-- What follows a delimiter in a form with these parts, and an epilogue.
abbrev pub behind : Bytes → Bytes → List Piece → Bytes
behind delimiter epilogue [] = codes "--" ++ epilogue
behind delimiter epilogue (p ∷ ps) =
    crlf
    ++ (headers_of p
        ++ ((crlf ++ crlf) ++ (p.content ++ (crlf ++ (delimiter ++ behind delimiter epilogue ps)))))

abbrev pub form : Bytes → Bytes → List Piece → Bytes
form delimiter epilogue ps = delimiter ++ behind delimiter epilogue ps

abbrev pub NoQuote : Bytes → Type 0
NoQuote = All (λ c. (c == 34) ≡ false)

-- "filename=" and a quote, which `headerParam` looks for.
abbrev pub file_key : Bytes
file_key = codes "filename" ++ (codes "=" ++ (34 ∷ []))

-- The headers of a file up to its "filename=".
abbrev pub file_front : Bytes → Bytes
file_front name =
    codes "Content-Disposition: form-data; name=" ++ (34 ∷ (name ++ (34 ∷ codes "; ")))

-- No "filename=" with a quote stands before that of a file, or at all in a field; and a file's name has no
-- quote.
abbrev pub FileNamed : Bytes → Option Bytes → Type 0
FileNamed name none = find file_key (headers_text name none) ≡ none
FileNamed name (some f) =
    (find file_key (file_front name ++ file_key) ≡ some (file_front name, [])) × NoQuote f

-- The headers hold no empty line, the delimiter first occurs behind the data, and the name is not empty and
-- has no quote.
pub record IsPart (delimiter : Bytes) (p : Piece) : Type 0 where
  pub headers_end : find (crlf ++ crlf) (headers_of p ++ (crlf ++ crlf)) ≡ some (headers_of p, [])
  pub content_ends :
      find delimiter (p.content ++ (crlf ++ delimiter)) ≡ some (p.content ++ crlf, [])
  pub named : p.name ≢ []
  pub name_quoted : NoQuote p.name
  pub file_named : FileNamed p.name p.filename

abbrev pub or_empty : Option Bytes → Bytes
or_empty none = []
or_empty (some f) = f

abbrev pub part_of : Piece → MultipartPart
part_of p = record { name = p.name; filename = or_empty p.filename; content = p.content }
