-- ===== src/World.antt =====
-- What a handler of srv/*.go runs in: the database, the artifact store, the clock, and which of the
-- calls that leave the process fail. A handler is an action of the state monad `M`: it finishes with
-- a value, or answers and returns early, or panics.
pub mod Calls
use release_hub.Base.{◌+++◌, ℕ, suc, String, Bool, Option, none, some, List, [], ◌∷◌}
use release_hub.Result.{error_text, GoError, failure, Result, ok, err}
use release_hub.Db.{Database}
use release_hub.Page.{AppRow, AppPage, SettingsPage}

-- A value of a JSON answer.
pub data Json : Type 0 where
  str : String → Json
  num : ℕ → Json
  bool : Bool → Json
  strs : List String → Json

abbrev pub Fields : Type 0
Fields = List (String × Json)

-- An artifact: its bytes, as far as the hub looks at them.
abbrev pub Bytes : Type 0
Bytes = List ℕ

-- What a handler writes: `writeErr`, `writeJSON`, `http.Error` and the page it renders, `http.Redirect`.
pub data Response : Type 0 where
  json : ℕ → Fields → Response
  rows : ℕ → List Fields → Response
  plain : ℕ → String → Response
  redirect : String → Response
  page : ℕ → String → Response
  -- a message in the flash cookie, and a redirect
  flash : String → String → Response
  -- the headers of its own, and the body
  binary : Fields → Bytes → Response
  -- slugs, each with rows of its platforms
  app_rows : ℕ → List (String × List Fields) → Response
  -- the pages that have data of their own
  apps_page : List AppRow → Response
  app_page : AppPage → Response
  settings_page : SettingsPage → Response

-- `writeErr`
abbrev pub write_err : ℕ → String → Response
write_err status msg = json status (("error", Json.str msg) ∷ [])

-- The calls of the Android Publisher API, with what they carry.
pub data PlayCall : Type 0 where
  edit_insert : PlayCall
  edit_delete : PlayCall
  edit_commit : PlayCall
  bundle_upload : Bytes → PlayCall
  tracks_list : PlayCall
  track_create : String → PlayCall
  track_update : String → String → ℕ → String → PlayCall
  testers_update : String → List String → PlayCall

-- What the program calls and does not contain: Unicode's lower case, names of temporary files, hashes,
-- random bytes (at a call's number, of a length), base64 and hex, bcrypt with (hash, password) and
-- (call's number, password), AES-GCM with (key, nonce, text), the environment, request signing by the
-- S3 client, the `client_email` of a service-account JSON, the code and message of a
-- `googleapi.Error`, and what Play answers after the calls made so far.
pub record Outside : Type 0 where
  pub lower : String → String
  pub temp_name : ℕ → String
  pub sha256_hex : Bytes → String
  pub sha256_bytes : String → Bytes
  pub hash_text : String → String
  pub random : ℕ → ℕ → Bytes
  pub hex_encode : Bytes → String
  pub bcrypt_matches : String → String → Bool
  pub bcrypt_hash : ℕ → String → Result String
  pub base64_encode : Bytes → String
  pub base64_decode : String → Option Bytes
  pub aes_seal : Bytes → Bytes → Bytes → Bytes
  pub aes_open : Bytes → Bytes → Bytes → Option Bytes
  pub env : String → String
  pub presign : String → String
  pub client_email : Bytes → Option String
  pub api_error : String → Option (ℕ × String)
  pub bundle_code : List PlayCall → ℕ
  pub live_tracks : List PlayCall → List (String × List String)

pub record World : Type 0 where
  pub db : Database
  -- the files below the artifact directory, or the objects of the bucket
  pub files : List (String × Bytes)
  pub now : ℕ
  -- the calls that Play has answered, latest first
  pub play : List PlayCall
  -- the text of the error with which the n-th call from the process fails, if it fails
  pub fault : ℕ → Option String
  pub tick : ℕ

pub data Outcome (A : Type 0) : Type 0 where
  done : A → Outcome A
  answered : Response → Outcome A
  panicked : Outcome A

abbrev pub M : Type 0 → Type 0
M A = World → Outcome A × World

abbrev pub continue : {A B : Type 0} → Outcome A → (A → M B) → M B
continue (done a) f w = f a w
continue (answered r) f w = (answered r, w)
continue panicked f w = (panicked, w)

infixl 5 ◌>>=◌ ◌>>◌
abbrev pub ◌>>=◌ : {A B : Type 0} → M A → (A → M B) → M B
◌>>=◌ m f w = let (o, w') = m w in continue o f w'

abbrev pub ◌>>◌ : {A B : Type 0} → M A → M B → M B
m >> n = m >>= λ _. n

abbrev pub pure : {A : Type 0} → A → M A
pure a w = (done a, w)

-- an answer, and a return
abbrev pub answer : {A : Type 0} → Response → M A
answer r w = (answered r, w)

abbrev pub panic : {A : Type 0} → M A
panic w = (panicked, w)

-- `if err != nil { …; return }`
abbrev pub expect : {A : Type 0} → (GoError → Response) → Result A → M A
expect answer_to (ok a) = pure a
expect answer_to (err e) = answer (answer_to e)

-- `if !ok { …; return }`
abbrev pub require : Bool → Response → M (Unit {0})
require Bool.true r = pure tt
require Bool.false r = answer r

-- A call that leaves the process. One that fails has no effect.
unfoldable pub call : {A : Type 0} → (World → Result A × World) → M (Result A)
call f w = elim (w.fault w.tick) [
  | some text ↦ (done (err (failure text)), record w { tick = suc w.tick })
  | none ↦ let (r, w') = f w in (done r, record w' { tick = suc w.tick })
]

-- a SELECT, and a statement that writes
abbrev pub query : {A : Type 0} → (Database → Result A) → M (Result A)
query f = call (λ w. (f w.db, w))

abbrev pub exec : {A : Type 0} → (Database → Result A × Database) → M (Result A)
exec f = call (λ w. let (r, db') = f w.db in (r, record w { db = db' }))

-- a call without an effect that the hub sees: a directory made, a file closed, a HEAD request
abbrev pub unchanged : World → Result (Unit {0}) × World
unchanged w = (ok tt, w)

-- `if err != nil { return …, wrapped }`
abbrev pub or_return :
    {A B : Type 0} → (GoError → GoError) → Result A → (A → M (Result B)) → M (Result B)
or_return wrapped (ok a) f = f a
or_return wrapped (err e) f = pure (err (wrapped e))

abbrev pub attempt :
    {A B : Type 0} → M (Result A) → (GoError → GoError) → (A → M (Result B)) → M (Result B)
attempt m wrapped f = m >>= λ r. or_return wrapped r f

abbrev pub as_it_is : GoError → GoError
as_it_is e = e

-- `fmt.Errorf("…: %w", err)`
abbrev pub behind : String → GoError → GoError
behind text e = failure (text +++ error_text e)
