-- ===== src/Logging.antt =====
-- pkg/logutil/logutil.go: the levels of the logs, and the handlers of a logger. The levels that the two
-- variables of a `Leveler` hold are the constants of slog and of minsev; `strings.ToUpper` is a
-- parameter. Handlers are what `GetLogger` asks for, with the writer that each gets.
pub mod Levels
pub mod Loggers
use nacp.Common.{
  String, Bool, true, false, Option, none, some, List, [], ◌∷◌, ◌++◌, ◌==◌, if◌then◌else◌,
}
use nacp.Config.{SlogLogging, OtelLogging, Logging, Config}

-- `slog.LevelError` and so on.
pub data SlogLevel : Type 0 where
  level_error level_warn level_info level_debug : SlogLevel

-- `minsev.SeverityError` and so on.
pub data Severity : Type 0 where
  severity_error severity_warn severity_info severity_debug : Severity

-- `Level.convert`: it panics where there is no value.
unfoldable pub convert : String → Option (SlogLevel × Severity)
convert l =
    if l == "ERROR"
    then some (level_error, severity_error)
    else if l == "WARN"
    then some (level_warn, severity_warn)
    else if l == "INFO"
    then some (level_info, severity_info)
    else if l == "DEBUG"
    then some (level_debug, severity_debug)
    else none

-- The two variables of a `Leveler`.
pub record Leveler : Type 0 where
  pub slog_var : SlogLevel
  pub minsev_var : Severity

-- `NewLeveler`
unfoldable pub new_leveler : String → Option Leveler
new_leveler initial = elim (convert initial) [
  | none ↦ none
  | some levels ↦ some (record { slog_var = levels.0; minsev_var = levels.1 })
]

-- `Leveler.Set`
unfoldable pub set_level : String → Leveler → Option Leveler
set_level level l = elim (convert level) [
  | none ↦ none
  | some levels ↦ some (record l { slog_var = levels.0; minsev_var = levels.1 })
]

-- An `io.Writer` that is not nil.
pub data Writer : Type 0 where
  stdout stderr : Writer

-- `outStrToWriter`
unfoldable pub out_str_to_writer : String → Option Writer
out_str_to_writer out =
    if out == "stdout" then some stdout else if out == "stderr" then some stderr else none

-- `LoggerFactory`. The leveler is shared: it comes back beside the factory.
pub record LoggerFactory : Type 0 where
  pub json_out : Option Writer
  pub text_out : Option Writer
  pub otel : Bool

-- `NewLoggerFactory`, whose leveler starts at INFO.
unfoldable pub new_logger_factory :
    Option Writer → Option Writer → Bool → Option (LoggerFactory × Leveler)
new_logger_factory json_out text_out otel = elim (new_leveler "INFO") [
  | none ↦ none
  | some leveler ↦ some (record { json_out = json_out; text_out = text_out; otel = otel }, leveler)
]

-- `if *enabled { out = outStrToWriter(*name) }`: a nil pointer panics.
unfoldable pub writer_of : Option Bool → Option String → Option (Option Writer)
writer_of none name = none
writer_of (some false) name = some none
writer_of (some true) none = none
writer_of (some true) (some name) = some (out_str_to_writer name)

-- `NewLoggerFactoryFromConfig`, behind the leveler.
unfoldable pub factory_of :
    Leveler → SlogLogging → Option OtelLogging → Option (LoggerFactory × Leveler)
factory_of leveler slog otel = elim (writer_of slog.text slog.text_out) [
  | none ↦ none
  | some text ↦ elim (writer_of slog.json slog.json_out) [
    | none ↦ none
    | some json ↦ elim otel [
      | none ↦ none
      | some o ↦ elim o.enabled [
        | none ↦ none
        | some enabled ↦ some (record { json_out = json; text_out = text; otel = enabled }, leveler)
      ]
    ]
  ]
]

module _ (to_upper : String → String) where
  -- `NewLoggerFactoryFromConfig`: no value where it panics, at an unknown level or a nil pointer.
  unfoldable pub new_logger_factory_from_config : Option Logging → Option (LoggerFactory × Leveler)
  unfolding factory_of
  new_logger_factory_from_config none = none
  new_logger_factory_from_config (some logging) = elim (new_leveler (to_upper logging.level)) [
    | none ↦ none
    | some leveler ↦ elim logging.slog_logging [
      | none ↦ none
      | some slog ↦ factory_of leveler slog logging.otel_logging
    ]
  ]

-- `c.Telemetry.Logging`, which is nil, or panics, where there is no value.
abbrev pub logging_of : Config → Option Logging
logging_of c = elim c.telemetry [ none ↦ none | some t ↦ t.logging ]

-- A handler of a logger. The first two log at the level of the leveler; the last has a name.
pub data Handler : Type 0 where
  json_handler : Writer → Handler
  text_handler : Writer → Handler
  otel_handler : String → Handler

-- `if out != nil { handlers = append(handlers, …) }`
abbrev handler_of : (Writer → Handler) → Option Writer → List Handler
handler_of make none = []
handler_of make (some w) = make w ∷ []

-- `GetLogger`: the handlers that the records are fanned out to.
unfoldable pub get_logger : LoggerFactory → String → List Handler
get_logger f name =
    handler_of json_handler f.json_out
    ++ handler_of text_handler f.text_out
    ++ (if f.otel then otel_handler name ∷ [] else [])
