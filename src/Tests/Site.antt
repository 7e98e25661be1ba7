-- ===== src/Tests/Site.antt =====
-- Instances of the theorems on the file transfer server. The storage is the list of the paths at which
-- it was changed, the last first, over a fixed tree: the directory "/books" with the file "a.epub".
use crosspoint_simulator_ios.Base.{
  ℕ, zero, suc, ◌<◌, ◌≡◌, refl, subst, true, false, List, [], ◌∷◌, ◌++◌, Option, none, some, Bytes,
  bytes_eq, All, arith,
}
use crosspoint_simulator_ios.Base.Text.{codes}
use crosspoint_simulator_ios.Web.Decode.{url_decode}
use crosspoint_simulator_ios.Web.Encoding.{percent_encode, url_decode-percent_encode}
use crosspoint_simulator_ios.Web.Path.{
  slash, with_slash, collapse, has_dot_dot, drop_trailing, normalize_path, is_protected_name,
  is_protected_path,
}
use crosspoint_simulator_ios.Web.PathLaws.{no_slash, no_zero, is_protected_path-part}
use crosspoint_simulator_ios.Web.Normal.{IsNormal, normalize_path-IsNormal}
use crosspoint_simulator_ios.Web.Request.{
  Request, parse_query, query_items, query_item, destination_path, query_value, read_form_value,
}
use crosspoint_simulator_ios.Web.Multipart.{multipart_boundary, parse_multipart_file}
use crosspoint_simulator_ios.Web.Storage.{StorageOps}
use crosspoint_simulator_ios.Web.Handlers.{Site}
use crosspoint_simulator_ios.Web.Dispatch.{handle_client_request}
use crosspoint_simulator_ios.Web.Guard.{HasWholePaths}
use crosspoint_simulator_ios.Web.Safety.{Guarded}
use crosspoint_simulator_ios.Web.Protection.{handle_client_request_safe}

abbrev first_only : ℕ → Option Bytes
first_only zero = some (codes "a.epub")
first_only (suc i) = none

abbrev tree : StorageOps
tree = record {
  State = List Bytes;
  exists = λ p s. bytes_eq p (codes "/books");
  is_directory = λ p s. some (bytes_eq p (codes "/books"));
  next_entry = λ p i s. first_only i;
  chunks = λ p s. (1 ∷ 2 ∷ []) ∷ [];
  mkdir = λ p s. (true, p ∷ s);
  rename = λ p q s. (true, p ∷ q ∷ s);
  remove = λ p s. (true, p ∷ s);
  rmdir = λ p s. (true, p ∷ s);
  open_for_write = λ p s. (true, p ∷ s);
  write = λ p d s. (true, p ∷ s);
}

abbrev Unprotected : List Bytes → Type 0
Unprotected = All (λ p. is_protected_path p ≡ false)

only-no_slash :
    (i : ℕ) (name : Bytes)
    → first_only i ≡ some name
    → (no_slash name ≡ true) × (no_zero name ≡ true)
only-no_slash zero name e =
    subst
      (λ (o : Option Bytes). elim o [
        | none ↦ Unit
        | some n ↦ (no_slash n ≡ true) × (no_zero n ≡ true)
      ])
      e (refl, refl)
only-no_slash (suc i) name e = absurd (cc)

tree-Guarded : Guarded tree Unprotected
tree-Guarded = record {
  mkdir = λ p s u h. (u, h);
  rename = λ p q s u v h. (u, (v, h));
  remove = λ p s u h. (u, h);
  rmdir = λ p s u h. (u, h);
  open_for_write = λ p s u h. (u, h);
  write = λ p d s u h. (u, h);
  names = λ p i s name e. only-no_slash i name e;
}

abbrev copy_books : Request
copy_books = record {
  method = codes "COPY";
  path = codes "/books";
  query = [];
  headers = (codes "destination", codes "http://127.0.0.1:8080/copies") ∷ [];
  body = [];
}

abbrev before : Site (List Bytes)
before = record {
  storage = [];
  upload_status = record {
    in_progress = false;
    filename = [];
    total = 0;
    received = 0;
    last_complete_name = [];
    last_complete_size = 0;
    last_complete_at = 0;
  };
}

copy_books-HasWholePaths : HasWholePaths copy_books
unfolding normalize_path url_decode with_slash collapse has_dot_dot drop_trailing destination_path
    query_value read_form_value parse_multipart_file multipart_boundary parse_query query_items
    query_item
copy_books-HasWholePaths = record {
  target = refl;
  target_given = refl;
  destination = refl;
  query_path = refl;
  form_path = refl;
  form_dest = refl;
  form_name = refl;
  file_name = tt;
}

handle_client_request_safe_example :
    Unprotected (handle_client_request tree 9 1000 (some copy_books) before).1.storage
handle_client_request_safe_example =
    handle_client_request_safe tree Unprotected tree-Guarded 9 1000 (some copy_books) before
      copy_books-HasWholePaths tt

abbrev title : Bytes
title = codes "50% & 1+1"

title-bytes : All (λ b. b < 256) title
title-bytes = (
  omega arith,
  (
    omega arith,
    (
      omega arith,
      (omega arith, (omega arith, (omega arith, (omega arith, (omega arith, (omega arith, tt)))))),
    ),
  ),
)

url_decode-percent_encode_example : url_decode (percent_encode title) ≡ title
url_decode-percent_encode_example = url_decode-percent_encode title title-bytes

normalize_path-IsNormal_example : IsNormal (normalize_path (codes "books//a%20b/"))
normalize_path-IsNormal_example = normalize_path-IsNormal (codes "books//a%20b/")

hidden-no_slash : no_slash (codes ".git") ≡ true
hidden-no_slash = refl

hidden-protected : is_protected_name (codes ".git") ≡ true
unfolding is_protected_name
hidden-protected = refl

is_protected_path-part_example :
    (is_protected_path (codes "/books" ++ (slash ∷ (codes ".git" ++ (slash ∷ codes "config"))))
      ≡ true)
    × (is_protected_path (codes "/books" ++ (slash ∷ codes ".git")) ≡ true)
is_protected_path-part_example =
    is_protected_path-part (codes "/books") (codes ".git") (codes "config") hidden-no_slash refl
      hidden-protected
