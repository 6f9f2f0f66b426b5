-- ===== src/Structs/Files.antt =====
-- uri.go and file.go.
use arigo.Base.{ℕ, ◌≡◌, refl, String, Bool, true, false, List, [], ◌∷◌}
use arigo.Json.{ℤ, pos}
use arigo.Tags.{Member, Coding, exact_member}
use arigo.Tags.Codings.{text, uint, int, bool, slice}
use arigo.Tags.Members.{member, distinct, struct}

-- `type URIStatus string`: any text is a value.
abbrev pub UriStatus : Type 0
UriStatus = String

abbrev pub uri_used : UriStatus
uri_used = "used"

abbrev pub uri_waiting : UriStatus
uri_waiting = "waiting"

pub record Uri : Type 0 where
  pub uri : String
  pub status : UriStatus

abbrev pub zero_uri : Uri
zero_uri = record { uri = ""; status = "" }

abbrev pub uri_members : List (Member Uri)
uri_members =
    member "uri" text (λ s. s.uri) (λ x s. record s { uri = x })
    ∷ member "status" text (λ s. s.status) (λ x s. record s { status = x })
    ∷ []

pub uri_members-distinct : distinct uri_members ≡ true
unfolding exact_member
uri_members-distinct = refl

abbrev pub uri : Coding Uri
uri = struct uri_members zero_uri uri_members-distinct (λ s t. refl)

pub record File : Type 0 where
  pub index : ℤ
  pub path : String
  pub length : ℕ
  pub completed_length : ℕ
  pub selected : Bool
  pub uris : List Uri

abbrev pub zero_file : File
zero_file = record {
  index = pos 0;
  path = "";
  length = 0;
  completed_length = 0;
  selected = false;
  uris = [];
}

abbrev pub file_members : List (Member File)
file_members =
    member "index" int (λ s. s.index) (λ x s. record s { index = x })
    ∷ member "path" text (λ s. s.path) (λ x s. record s { path = x })
    ∷ member "length" (uint 64) (λ s. s.length) (λ x s. record s { length = x })
    ∷ member "completedLength" (uint 64) (λ s. s.completed_length)
        (λ x s. record s { completed_length = x })
    ∷ member "selected" bool (λ s. s.selected) (λ x s. record s { selected = x })
    ∷ member "uris" (slice uri) (λ s. s.uris) (λ x s. record s { uris = x })
    ∷ []

pub file_members-distinct : distinct file_members ≡ true
unfolding exact_member
file_members-distinct = refl

abbrev pub file : Coding File
file = struct file_members zero_file file_members-distinct (λ s t. refl)
