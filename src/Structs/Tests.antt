-- ===== src/Structs/Tests.antt =====
-- Structs written and read, and the theorems at inputs.
use arigo.Base.{ℕ, Bool, ◌≡◌, refl, true, none, some, [], ◌∷◌, ◌==◌, if◌then◌else◌}
use arigo.Json.{Json, str, arr, obj, field, end, nil, cons, decodes_uint, pos}
use arigo.Tags.{Coding, stored, stopped, store_struct, members_json}
use arigo.Tags.Codings.{uint, store_slice}
use arigo.Tags.Entries.{entry}
use arigo.Tags.Quoted.{quoted_uint, quoted_int, quoted_bool}
use arigo.Structs.Files.{file}
use arigo.Structs.Status.{UnixTime}
use arigo.Structs.Options.{Options}
use arigo.Structs.Options.Zero.{zero_options}
use arigo.Structs.Options.Fields.{option_members}
use arigo.Structs.Options.Sent.{false_not_sent}

-- A file as aria2 reports it, and one with a length that is no number.
abbrev reply : Json
reply = obj (
    field "completedLength" (str "34896138") (
      field "index" (str "1") (
        field "length" (str "34896138") (
          field "path" (str "/downloads/file") (
            field "selected" (str "true") (
              field "uris"
                (arr (
                  cons
                    (obj (
                      field "status" (str "used")
                        (field "uri" (str "http://example.org/file") end)))
                    nil))
                end))))))

abbrev broken : Json
broken = obj (field "path" (str "a") (field "length" (str "much") (field "index" (str "1") end)))

reply_read :
    file.store reply file.zero_value
    ≡ stored (record {
      index = pos 1;
      path = "/downloads/file";
      length = 34896138;
      completed_length = 34896138;
      selected = true;
      uris = record { uri = "http://example.org/file"; status = "used" } ∷ [];
    })
unfolding store_struct store_slice quoted_uint quoted_int quoted_bool
reply_read = refl

-- Decoding ends at the bad number: the index behind it is not read.
broken_stops : file.store broken file.zero_value ≡ stopped (record file.zero_value { path = "a" })
unfolding store_struct quoted_uint
broken_stops = refl

-- A stand-in for float32.
abbrev halves : Coding ℕ
halves = uint 32

abbrev is_zero : ℕ → Bool
is_zero n = n == 0

abbrev no_options : Options ℕ
no_options = zero_options 0

abbrev some_options : Options ℕ
some_options = record no_options {
  dir = "/downloads";
  split = 5;
  check_integrity = true;
  seed_ratio = 2;
}

abbrev created : UnixTime
created = record { seconds = pos 1574208000; nanoseconds = 5 }

false_not_sent_example :
    (entry "always-resume" (members_json (option_members halves is_zero) some_options)
      ≡ (if some_options.always_resume then some (str "true") else none))
    × (entry "async-dns" (members_json (option_members halves is_zero) some_options)
        ≡ (if some_options.async_dns then some (str "true") else none))
    × (entry "auto-file-renaming" (members_json (option_members halves is_zero) some_options)
        ≡ (if some_options.auto_file_renaming then some (str "true") else none))
false_not_sent_example = false_not_sent halves is_zero some_options
