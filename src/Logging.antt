-- ===== src/Logging.antt =====
-- internal/logging/logging.go: the log file and the alerts file of a configuration. A file is the
-- number of its handle, and `opened` is what os.OpenFile returns for it, if it is called.
use snmptrap_relay.Model.{LoggingConfig}
use snmptrap_relay.Prelude.{
  ℕ, ◌≡◌, ◌⊎◌, inl, inr, refl, List, [], ◌∷◌, Option, none, some, if◌then◌else◌, ◌||◌, arith,
  Bool-cases,
}
use snmptrap_relay.Result.{Result, Error, ok, err, ◌>>=◌, unsupported_format, Result-cases}
use snmptrap_relay.Text.{Text, lit, same, is_empty, to_lower, to_upper}

-- The levels of log/slog.
pub data LogLevel : Type 0 where
  level_debug level_info level_warn level_error : LogLevel

pub data Format : Type 0 where
  json_format text_format : Format

-- What a *slog.Logger writes: the format, the level from which on, and the file, none for os.Stdout.
pub record Logger : Type 0 where
  pub format : Format
  pub level : LogLevel
  pub writer : Option ℕ

-- Resource
pub record Resource : Type 0 where
  pub logger : Logger
  pub closer : Option ℕ

-- parseLevel
unfoldable pub parse_level : Text → LogLevel
unfolding to_upper same
parse_level level =
    let name = to_upper level in
    if same name (lit "DEBUG")
    then level_debug
    else if same name (lit "WARN") || same name (lit "WARNING")
    then level_warn
    else if same name (lit "ERROR")
    then level_error
    else level_info

-- The file that a configured name leads to, none without a name.
unfoldable pub open_named : Text → Result ℕ → Result (Option ℕ)
open_named file opened = if is_empty file then ok none else (do handle ← opened; ok (some handle))

-- The switch on the format.
unfoldable pub format_of : Text → Result Format
unfolding to_lower same
format_of text =
    let name = to_lower text in
    if same name (lit "json")
    then ok json_format
    else if is_empty name || same name (lit "text")
    then ok text_format
    else err (unsupported_format text)

abbrev pub to_list {ℓ} : {A : Type ℓ} → Option A → List A
to_list none = []
to_list (some a) = a ∷ []

-- NewResource, with the files that it closes
unfoldable pub new_resource : LoggingConfig → Result ℕ → Result Resource × List ℕ
new_resource cfg opened = elim (open_named cfg.file opened) [
  | err e ↦ (err e, [])
  | ok file ↦ elim (format_of cfg.format) [
    | err e ↦ (err e, to_list file)
    | ok format ↦
        let logger : Logger = record {
          format = format;
          level = parse_level cfg.level;
          writer = file;
        } in
        (ok (record { logger = logger; closer = file }), [])
  ]
]

-- New, which drops the closer
unfoldable pub new_logger : LoggingConfig → Result ℕ → Result Logger
unfolding new_resource
new_logger cfg opened = do resource ← (new_resource cfg opened).0; ok resource.logger

-- NewAlertsWriter
unfoldable pub new_alerts_writer : LoggingConfig → Result ℕ → Result (Option ℕ)
unfolding open_named
new_alerts_writer cfg opened = open_named cfg.alerts_file opened

-- NewResource leaves no file open behind an error: the file that it has opened is closed, and without an
-- error it is the resource's to close, which no other file is and which is where its logger writes.
pub new_resource_closes :
    (cfg : LoggingConfig) (opened : Result ℕ) (file : Option ℕ)
    → open_named cfg.file opened ≡ ok file
    → ((e : Error) × (new_resource cfg opened ≡ (err e, to_list file)))
      ⊎ ((r : Resource) × (new_resource cfg opened ≡ (ok r, []))
          × (r.closer ≡ file)
          × (r.logger.writer ≡ file))
unfolding new_resource
new_resource_closes cfg opened file h = elim (Result-cases (format_of cfg.format)) [
  | inl (e, unknown) ↦ inl (e, rw (h, unknown, new_resource) refl)
  | inr (format, known) ↦
      let logger : Logger = record {
        format = format;
        level = parse_level cfg.level;
        writer = file;
      } in
      inr (record { logger = logger; closer = file }, rw (h, known, new_resource) refl, refl, refl)
]

-- Without an error nothing is closed.
pub new_resource_ok :
    (cfg : LoggingConfig) (opened : Result ℕ) (r : Resource) (dropped : List ℕ)
    → new_resource cfg opened ≡ (ok r, dropped)
    → new_resource cfg opened ≡ (ok r, [])
unfolding new_resource
new_resource_ok cfg opened r dropped h = elim (Result-cases (open_named cfg.file opened)) [
  | inl (e, wrong) ↦ absurd (ground arith)
  | inr (file, there) ↦ elim (new_resource_closes cfg opened file there) [
    | inl (e, wrong) ↦ absurd (ground arith)
    | inr (found, ends, closer, writer) ↦ ground arith
  ]
]

-- What os.OpenFile gives for a name, told from the name and its answer alone.
abbrev pub file_opened : Text → Result ℕ → List ℕ
file_opened file (err e) = []
file_opened file (ok handle) = if is_empty file then [] else handle ∷ []

-- What NewResource answers for: the file that it returns, or what it closes with its error.
abbrev pub answered_file : Result Resource × List ℕ → List ℕ
answered_file (err e, dropped) = dropped
answered_file (ok resource, dropped) = to_list resource.closer

-- NewResource returns or closes the file that it is given.
pub answered_file-new_resource :
    (cfg : LoggingConfig) (opened : Result ℕ)
    → answered_file (new_resource cfg opened) ≡ file_opened cfg.file opened
unfolding new_resource open_named
answered_file-new_resource cfg (err e) = elim (Bool-cases (is_empty cfg.file)) [
  | inr named ↦ rw (named, new_resource, open_named) refl
  | inl unnamed ↦ elim (Result-cases (format_of cfg.format)) [
    | inl (e2, unknown) ↦ rw (unnamed, new_resource, open_named) (rw unknown refl)
    | inr (format, known) ↦ rw (unnamed, new_resource, open_named) (rw known refl)
  ]
]
answered_file-new_resource cfg (ok handle) = elim (Bool-cases (is_empty cfg.file)) [
  | inr named ↦ elim (Result-cases (format_of cfg.format)) [
    | inl (e, unknown) ↦ rw (named, new_resource, open_named) (rw unknown refl)
    | inr (format, known) ↦ rw (named, new_resource, open_named) (rw known refl)
  ]
  | inl unnamed ↦ elim (Result-cases (format_of cfg.format)) [
    | inl (e, unknown) ↦ rw (unnamed, new_resource, open_named) (rw unknown refl)
    | inr (format, known) ↦ rw (unnamed, new_resource, open_named) (rw known refl)
  ]
]

-- Behind an error it has closed the file.
pub new_resource_refused :
    (cfg : LoggingConfig) (opened : Result ℕ) (e : Error) (dropped : List ℕ)
    → new_resource cfg opened ≡ (err e, dropped)
    → dropped ≡ file_opened cfg.file opened
new_resource_refused cfg opened e dropped h = rw h at (answered_file-new_resource cfg opened)

-- NewAlertsWriter returns the file that it is given.
pub new_alerts_writer_opened :
    (cfg : LoggingConfig) (opened : Result ℕ) (alerts : Option ℕ)
    → new_alerts_writer cfg opened ≡ ok alerts
    → to_list alerts ≡ file_opened cfg.alerts_file opened
unfolding new_alerts_writer open_named
new_alerts_writer_opened cfg (err e) alerts h = ground arith
new_alerts_writer_opened cfg (ok handle) alerts h = ground arith
