-- ===== src/Request.antt =====
-- What a handler reads of `*http.Request`. A value that is missing reads as the empty text.
use release_hub.Base.{String, Bool, List, [], ◌∷◌, Option, none, some, ◌==◌, if◌then◌else◌}
use release_hub.World.{Bytes}

-- `multipart.FileHeader` and the file behind it
pub record FormFile : Type 0 where
  pub filename : String
  pub content : Bytes

pub record Request : Type 0 where
  pub method : String
  pub path : String
  pub path_values : List (String × String)
  pub query_values : List (String × String)
  pub post_form : List (String × String)
  -- whether the body is a multipart form
  pub multipart : Bool
  -- the error with which parsing the form ends, if it does
  pub form_error : Option String
  pub file : Option FormFile
  pub authorization : String
  pub cookie : Option String
  -- the cookie `rh_flash`
  pub flash_cookie : Option String

unfoldable pub find_value : String → List (String × String) → Option String
find_value key [] = none
find_value key ((k, v) ∷ rest) = if k == key then some v else find_value key rest

abbrev pub or_empty : Option String → String
or_empty none = ""
or_empty (some v) = v

-- `r.PathValue` and `r.URL.Query().Get`
unfoldable pub path_value : String → Request → String
unfolding find_value
path_value key r = or_empty (find_value key r.path_values)

unfoldable pub query_value : String → Request → String
unfolding find_value
query_value key r = or_empty (find_value key r.query_values)

abbrev pub first_of_two : Option String → Option String → String
first_of_two none o = or_empty o
first_of_two (some v) o = v

-- `r.FormValue`: a body of fields goes before the query, and a multipart body behind it
unfoldable pub form_value : String → Request → String
unfolding find_value
form_value key r =
    if r.multipart
    then first_of_two (find_value key r.query_values) (find_value key r.post_form)
    else first_of_two (find_value key r.post_form) (find_value key r.query_values)

-- `flash`, and what `flashFrom` gives behind `withFlash`
abbrev pub flash_of : Request → String
flash_of r = or_empty r.flash_cookie
