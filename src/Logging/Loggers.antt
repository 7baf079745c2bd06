-- ===== src/Logging/Loggers.antt =====
-- The loggers of a configuration that is loaded (pkg/logutil/logutil.go, pkg/config/config.go).
use nacp.Common.{
  ◌≡◌, refl, sym, ap, ◌∙◌, String, Bool, true, false, Option, none, some, List, [], ◌∷◌, ◌++◌, ◌==◌,
  inl, inr, if◌then◌else◌, Option-cases,
}
use nacp.GoError.{Result, ok, returns}
use nacp.Config.{SlogLogging, Logging, Telemetry, Config}
use nacp.Config.Validate.{UrlLibrary, validate, validate_listener, validate_controllers}
use nacp.Config.Load.{default_config, set_defaults, slog_of, check_outs, load_config}
use nacp.Config.Load.Laws.{
  HasOuts, IsOut, load_config_steps, load_config_of_steps, load_config-HasOuts,
}
use nacp.Logging.{
  SlogLevel, Severity, convert, Leveler, new_leveler, Writer, stdout, stderr, out_str_to_writer,
  logging_of, LoggerFactory, writer_of, factory_of, new_logger_factory_from_config, Handler,
  json_handler, text_handler, otel_handler, get_logger,
}

-- `out`, where it is one of the two that are allowed.
abbrev pub writer_named : Option String → Writer
writer_named none = stderr
writer_named (some out) = if out == "stdout" then stdout else stderr

abbrev relevel : String → Option Telemetry → Option Telemetry
relevel s none = none
relevel s (some t) =
    some (record t {
      logging = elim t.logging [ none ↦ none | some l ↦ some (record l { level = s }) ];
    })

-- The configuration with another level for its logs.
abbrev pub with_level : String → Config → Config
with_level s c = record c { telemetry = relevel s c.telemetry }

out_str_to_writer-IsOut :
    (o : Option String) → IsOut o → writer_of (some true) o ≡ some (some (writer_named o))
unfolding writer_of out_str_to_writer
out_str_to_writer-IsOut none h = absurd h
out_str_to_writer-IsOut (some out) (inl e) = rw e
out_str_to_writer-IsOut (some out) (inr e) = rw e

relevel-slog :
    (s : String) (t : Option Telemetry)
    → slog_of (record default_config { telemetry = relevel s t })
      ≡ slog_of (record default_config { telemetry = t })
relevel-slog s none = refl
relevel-slog s (some t) = elim (Option-cases t.logging) [ inl e ↦ rw e | inr (l, e) ↦ rw e ]

module _ (L : UrlLibrary) (to_upper : String → String) where
  relevel-panics :
      (s : String) (t : Option Telemetry)
      → convert (to_upper s) ≡ none
      → new_logger_factory_from_config to_upper
          (logging_of (record default_config { telemetry = relevel s t }))
        ≡ none
  unfolding new_logger_factory_from_config new_leveler
  relevel-panics s none unknown = refl
  relevel-panics s (some t) unknown = elim (Option-cases t.logging) [
    | inl e ↦ rw e
    | inr (l, e) ↦ rw (e, unknown, new_logger_factory_from_config, new_leveler)
  ]

  -- A configuration that is decoded with another level in place loads as before, if it loads, since
  -- nothing checks the level; and if the level, in upper case, is none of ERROR, WARN, INFO and
  -- DEBUG, the logger factory of the configuration that is loaded panics.
  pub load_config-level :
      (name s : String) (c d : Config)
      → load_config L (λ n base. ok c) name ≡ returns (ok d)
      → convert (to_upper s) ≡ none
      → (load_config L (λ n base. ok (with_level s c)) name ≡ returns (ok (with_level s d)))
        × (new_logger_factory_from_config to_upper (logging_of (with_level s d)) ≡ none)
  unfolding set_defaults validate validate_listener validate_controllers
  load_config-level name s c d loaded unknown =
      let (decoded, read, outs, valid, whole) =
        load_config_steps L (λ n base. ok c) name d loaded in
      let start : c ≡ decoded = cc read in
      let outs' : check_outs (slog_of (set_defaults c)) ≡ returns (ok tt) =
        rw (sym start) at outs in
      let valid' : validate L (some (set_defaults (with_level s c))) ≡ none =
        rw (sym start) at valid in
      (
        load_config_of_steps L (λ n base. ok (with_level s c)) name (with_level s c) refl
              (ap check_outs (relevel-slog s c.telemetry) ∙ outs') valid'
            ∙ ap (λ x. returns (ok (with_level s x))) (ap set_defaults start ∙ whole),
        relevel-panics s d.telemetry unknown,
      )

-- The handler of an output, if it is wanted.
abbrev pub wanted : Bool → Handler → List Handler
wanted true h = h ∷ []
wanted false h = []

writer_of_wanted :
    (b : Bool) (o : Option String)
    → IsOut o
    → writer_of (some b) o ≡ some (if b then some (writer_named o) else none)
unfolding writer_of
writer_of_wanted true o h = out_str_to_writer-IsOut o h
writer_of_wanted false o h = refl

handlers_of :
    (j t o : Bool) (v w : Writer) (name : String)
    → get_logger
        (record {
          json_out = if j then some v else none;
          text_out = if t then some w else none;
          otel = o;
        })
        name
      ≡ (wanted j (json_handler v) ++ wanted t (text_handler w) ++ wanted o (otel_handler name))
unfolding get_logger
handlers_of true true true v w name = refl
handlers_of true true false v w name = refl
handlers_of true false true v w name = refl
handlers_of true false false v w name = refl
handlers_of false true true v w name = refl
handlers_of false true false v w name = refl
handlers_of false false true v w name = refl
handlers_of false false false v w name = refl

factory_of_wanted :
    (k : Leveler) (s : SlogLogging) (json text otel : Bool)
    → HasOuts (some s)
    → s.json ≡ some json
    → s.text ≡ some text
    → factory_of k s (some (record { enabled = some otel }))
      ≡ some (
        record {
          json_out = if json then some (writer_named s.json_out) else none;
          text_out = if text then some (writer_named s.text_out) else none;
          otel = otel;
        },
        k,
      )
unfolding factory_of
factory_of_wanted k s json text otel outs ej ex =
    let wt : writer_of s.text s.text_out ≡ _ =
      ap (λ b. writer_of b s.text_out) ex ∙ writer_of_wanted text s.text_out outs.0 in
    let wj : writer_of s.json s.json_out ≡ _ =
      ap (λ b. writer_of b s.json_out) ej ∙ writer_of_wanted json s.json_out outs.1 in
    rw (wt, wj, factory_of)

module _ (L : UrlLibrary) (decode_file : String → Config → Result Config)
    (to_upper : String → String) where
  -- The loggers of a configuration that is loaded, with a level whose upper case is a known one and
  -- no nil flag: the logger factory is made, its leveler is at that level, and a logger writes JSON
  -- exactly if it is enabled, text exactly if it is enabled, in each case to the output that the
  -- configuration names, which is never nil, and then to OpenTelemetry exactly if that is enabled.
  pub get_logger-wanted :
      (file : String) (c : Config) (t : Telemetry) (l : Logging) (s : SlogLogging)
      (lv : SlogLevel × Severity) (json text otel : Bool) (name : String)
      → load_config L decode_file file ≡ returns (ok c)
      → c.telemetry ≡ some t
      → t.logging ≡ some l
      → l.slog_logging ≡ some s
      → l.otel_logging ≡ some (record { enabled = some otel })
      → s.json ≡ some json
      → s.text ≡ some text
      → convert (to_upper l.level) ≡ some lv
      → (f : LoggerFactory) × (k : Leveler) × (new_logger_factory_from_config to_upper
            (logging_of c)
          ≡ some (f, k))
        × (k.slog_var ≡ lv.0)
        × (k.minsev_var ≡ lv.1)
        × (get_logger f name ≡ (
            wanted json (json_handler (writer_named s.json_out))
            ++ wanted text (text_handler (writer_named s.text_out))
            ++ wanted otel (otel_handler name)))
  unfolding new_logger_factory_from_config new_leveler
  get_logger-wanted file c t l s lv json text otel name loaded et el es eo ej ex known =
      let outs = rw (et, el, es) at ((load_config-HasOuts L decode_file file c loaded).2) in
      (
        record {
          json_out = if json then some (writer_named s.json_out) else none;
          text_out = if text then some (writer_named s.text_out) else none;
          otel = otel;
        },
        record { slog_var = lv.0; minsev_var = lv.1 },
        rw (et, el)
            (rw (known, es, eo, new_logger_factory_from_config, new_leveler)
              (factory_of_wanted _ s json text otel outs ej ex)),
        refl,
        refl,
        handlers_of json text otel _ _ name,
      )
