-- ===== src/Stringer/Names.antt =====
-- The strings of EventType and of ExitStatus, against the names of the constants.
use text.Mathlib.Text.{◌==◌ as str_eq}
use text.Mathlib.TextEquality.{eq_iff}
use arigo.Base.{
  ℕ, zero, suc, ◌≡◌, refl, ap, ◌∙◌, String, Bool, true, false, ◌&&◌, Option, none, some, List, [],
  ◌∷◌, arith, ltb, length, get_elem?, ◌-◌, Bool-cases, inl, inr, ◌<◌, ◌≤◌,
}
use arigo.Events.{EventType}
use arigo.Events.Names.{event_type_string, event_type_name, event_type_index}
use arigo.ExitStatus.{ExitStatus, exit_status_string, exit_status_name, exit_status_index}
use arigo.Stringer.{name_at, name_or_number, numbered}

-- The names of the constants, in the order of their values.
abbrev pub event_types : List String
event_types =
    "StartEvent" ∷ "PauseEvent" ∷ "StopEvent" ∷ "CompleteEvent" ∷ "BTCompleteEvent" ∷ "ErrorEvent"
    ∷ []

abbrev pub exit_statuses : List String
exit_statuses =
    "Success" ∷ "UnknownError" ∷ "Timeout" ∷ "ResourceNotFound" ∷ "ResourceNotFoundReached"
    ∷ "DownloadSpeedTooSlow" ∷ "NetworkError" ∷ "UnfinishedDownloads" ∷ "RemoteNoResume"
    ∷ "NotEnoughDiskSpace" ∷ "PieceLengthMismatch" ∷ "SameFileBeingDownloaded"
    ∷ "SameInfoHashBeingDownloaded" ∷ "FileAlreadyExists" ∷ "RenamingFailed"
    ∷ "CouldNotOpenExistingFile" ∷ "CouldNotCreateNewFile" ∷ "FileIOError"
    ∷ "CouldNotCreateDirectory" ∷ "NameResolutionFailed" ∷ "MetalinkParsingFailed"
    ∷ "FTPCommandFailed" ∷ "HTTPResponseHeaderBad" ∷ "TooManyRedirects" ∷ "HTTPAuthorizationFailed"
    ∷ "BencodedFileParseError" ∷ "TorrentFileCorrupt" ∷ "MagnetURIBad"
    ∷ "RemoteServerHandleRequestError" ∷ "JSONRPCParseError" ∷ "Reserved"
    ∷ "ChecksumValidationFailed" ∷ []

-- The name of the constant, or else the type and the number.
abbrev pub constant_or_number : String → ℕ → Option String → String
constant_or_number typ i none = numbered typ i
constant_or_number typ i (some name) = name

abbrev is_text : Option String → String → Bool
is_text none t = false
is_text (some s) t = str_eq s t

abbrev behind_first : List ℕ → List ℕ
behind_first [] = []
behind_first (x ∷ xs) = xs

-- The slices of the table, one after the other, are these.
agrees : String → List ℕ → List String → Bool
agrees name index [] = true
agrees name index (n ∷ ns) = is_text (name_at name index 0) n && agrees name (behind_first index) ns

is_text-eq : (o : Option String) (t : String) → is_text o t ≡ true → o ≡ some t
is_text-eq none t h = cc
is_text-eq (some s) t h = ap (λ (x : String). some x) ((eq_iff s t).0 h)

name_at-agrees :
    (name : String) (x : ℕ) (index : List ℕ) (names : List String) (k : ℕ) (n : String)
    → agrees name (x ∷ index) names ≡ true
    → get_elem? names k ≡ some n
    → name_at name (x ∷ index) k ≡ some n
unfolding agrees
name_at-agrees name x index [] k n h e = cc
name_at-agrees name x index (m ∷ ms) zero n h e = is_text-eq _ m (ground (arith, h)) ∙ e
name_at-agrees name x [] (m ∷ ms) (suc k) n h e = cc
name_at-agrees name x (y ∷ index) (m ∷ ms) (suc k) n h e =
    name_at-agrees name y index ms k n (ground (arith, h)) e

pub get_elem?-some :
    (xs : List String) (i : ℕ) → i < length xs → (n : String) × (get_elem? xs i ≡ some n)
get_elem?-some [] i h = absurd (omega arith)
get_elem?-some (x ∷ xs) zero h = (x, refl)
get_elem?-some (x ∷ xs) (suc i) h = get_elem?-some xs i (omega arith)

pub get_elem?-none : (xs : List String) (i : ℕ) → length xs ≤ i → get_elem? xs i ≡ none
get_elem?-none [] i h = refl
get_elem?-none (x ∷ xs) zero h = absurd (omega arith)
get_elem?-none (x ∷ xs) (suc i) h = get_elem?-none xs i (omega arith)

name_or_number-agrees :
    (typ name : String) (x : ℕ) (index : List ℕ) (names : List String) (i : ℕ)
    → agrees name (x ∷ index) names ≡ true
    → length index ≡ length names
    → name_or_number typ name (x ∷ index) i ≡ some (constant_or_number typ i (get_elem? names i))
name_or_number-agrees typ name x index names i h e =
    elim (Bool-cases (ltb i (length (x ∷ index) - 1))) [
      | inl q ↦
          let (n, found) = get_elem?-some names i (ground arith) in
          rw q (rw found (name_at-agrees name x index names i n h found))
      | inr q ↦ rw q (rw (get_elem?-none names i (ground arith)) refl)
    ]

-- String of an EventType never panics: it gives the name of the constant for each of the six
-- events, and the number in parentheses for every other value.
pub event_type_string-eq :
    (i : EventType)
    → event_type_string i ≡ some (constant_or_number "EventType" i (get_elem? event_types i))
unfolding event_type_string agrees
event_type_string-eq i =
    name_or_number-agrees "EventType" event_type_name 0 (behind_first event_type_index) event_types
      i refl refl

-- String of an ExitStatus never panics: it gives the name of the constant for each of the 32 exit
-- statuses, and the number in parentheses for every other value.
pub exit_status_string-eq :
    (i : ExitStatus)
    → exit_status_string i ≡ some (constant_or_number "ExitStatus" i (get_elem? exit_statuses i))
unfolding exit_status_string agrees
exit_status_string-eq i =
    name_or_number-agrees "ExitStatus" exit_status_name 0 (behind_first exit_status_index)
      exit_statuses i refl refl

-- String of an EventType and of an ExitStatus never panics: it gives the name of the constant for
-- each of the six events and each of the 32 exit statuses, and for every other value the type with
-- the number in parentheses.
pub generated_strings :
    (i : EventType) (s : ExitStatus)
    → (event_type_string i ≡ some (constant_or_number "EventType" i (get_elem? event_types i)))
      × (exit_status_string s
          ≡ some (constant_or_number "ExitStatus" s (get_elem? exit_statuses s)))
generated_strings i s = (event_type_string-eq i, exit_status_string-eq s)
