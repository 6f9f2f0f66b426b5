-- ===== src/Structs/Stats.antt =====
-- stats.go, session.go and version.go.
use arigo.Base.{ℕ, ◌≡◌, refl, String, true, List, [], ◌∷◌}
use arigo.Tags.{Member, Coding, exact_member}
use arigo.Tags.Codings.{text, uint, slice}
use arigo.Tags.Members.{member, distinct, struct}

pub record Stats : Type 0 where
  pub download_speed : ℕ
  pub upload_speed : ℕ
  pub num_active : ℕ
  pub num_waiting : ℕ
  pub num_stopped : ℕ
  pub num_stopped_total : ℕ

abbrev pub zero_stats : Stats
zero_stats = record {
  download_speed = 0;
  upload_speed = 0;
  num_active = 0;
  num_waiting = 0;
  num_stopped = 0;
  num_stopped_total = 0;
}

abbrev pub stats_members : List (Member Stats)
stats_members =
    member "downloadSpeed" (uint 64) (λ s. s.download_speed)
      (λ x s. record s { download_speed = x })
    ∷ member "uploadSpeed" (uint 64) (λ s. s.upload_speed) (λ x s. record s { upload_speed = x })
    ∷ member "numActive" (uint 64) (λ s. s.num_active) (λ x s. record s { num_active = x })
    ∷ member "numWaiting" (uint 64) (λ s. s.num_waiting) (λ x s. record s { num_waiting = x })
    ∷ member "numStopped" (uint 64) (λ s. s.num_stopped) (λ x s. record s { num_stopped = x })
    ∷ member "numStoppedTotal" (uint 64) (λ s. s.num_stopped_total)
        (λ x s. record s { num_stopped_total = x })
    ∷ []

pub stats_members-distinct : distinct stats_members ≡ true
unfolding exact_member
stats_members-distinct = refl

abbrev pub stats : Coding Stats
stats = struct stats_members zero_stats stats_members-distinct (λ s t. refl)

pub record SessionInfo : Type 0 where
  pub id : String

abbrev pub zero_session_info : SessionInfo
zero_session_info = record { id = "" }

abbrev pub session_info_members : List (Member SessionInfo)
session_info_members = member "sessionId" text (λ s. s.id) (λ x s. record s { id = x }) ∷ []

pub session_info_members-distinct : distinct session_info_members ≡ true
unfolding exact_member
session_info_members-distinct = refl

abbrev pub session_info : Coding SessionInfo
session_info =
    struct session_info_members zero_session_info session_info_members-distinct (λ s t. refl)

pub record VersionInfo : Type 0 where
  pub version : String
  pub enabled_features : List String

abbrev pub zero_version_info : VersionInfo
zero_version_info = record { version = ""; enabled_features = [] }

abbrev pub version_info_members : List (Member VersionInfo)
version_info_members =
    member "version" text (λ s. s.version) (λ x s. record s { version = x })
    ∷ member "enabledFeatures" (slice text) (λ s. s.enabled_features)
        (λ x s. record s { enabled_features = x })
    ∷ []

pub version_info_members-distinct : distinct version_info_members ≡ true
unfolding exact_member
version_info_members-distinct = refl

abbrev pub version_info : Coding VersionInfo
version_info =
    struct version_info_members zero_version_info version_info_members-distinct (λ s t. refl)
