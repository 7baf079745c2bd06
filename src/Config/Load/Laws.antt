-- ===== src/Config/Load/Laws.antt =====
-- When `LoadConfig` returns a configuration, and when it panics (pkg/config/config.go).
use nacp.Common.{
  String, ◌||◌, Option, none, some, ◌==◌, ◌≡◌, sym, ◌⊎◌, ◌↔◌, inl, inr, refl, eq_iff, Bool-cases,
}
use nacp.GoError.{
  GoError, Result, ok, panicked, returns, nil_dereference, and_on-eq-ok, and_on-eq-panicked,
}
use nacp.Config.{SlogLogging, Config}
use nacp.Config.Validate.{UrlLibrary, validate}
use nacp.Config.Load.{
  default_config, set_defaults, slog_of, check_out, check_outs, unless, load_config,
}

abbrev pub IsOut : Option String → Type 0
IsOut none = ⊥
IsOut (some out) = (out ≡ "stdout") ⊎ (out ≡ "stderr")

abbrev pub HasOuts : Option SlogLogging → Type 0
HasOuts none = ⊥
HasOuts (some s) = IsOut s.text_out × IsOut s.json_out

check_out-IsOut : (what : String) (o : Option String) → check_out what o ≡ returns (ok tt) → IsOut o
unfolding check_out
check_out-IsOut what none h = absurd (cc h)
check_out-IsOut what (some out) h = elim (Bool-cases (out == "stdout")) [
  | inl e ↦ inl ((eq_iff out "stdout").0 e)
  | inr e ↦ elim (Bool-cases (out == "stderr")) [
    | inl f ↦ inr ((eq_iff out "stderr").0 f)
    | inr f ↦ absurd (cc (rw (e, f, check_out) at h))
  ]
]

check_outs-HasOuts : (o : Option SlogLogging) → check_outs o ≡ returns (ok tt) → HasOuts o
unfolding check_outs
check_outs-HasOuts none h = absurd (cc h)
check_outs-HasOuts (some s) h =
    let (u, text, json) =
      and_on-eq-ok (check_out "text" s.text_out) (λ u. check_out "json" s.json_out) {b = tt} h in
    (check_out-IsOut "text" s.text_out text, check_out-IsOut "json" s.json_out json)

check_out_of_IsOut :
    (what : String) (o : Option String) → IsOut o → check_out what o ≡ returns (ok tt)
unfolding check_out
check_out_of_IsOut what none h = absurd h
check_out_of_IsOut what (some out) (inl e) = rw e
check_out_of_IsOut what (some out) (inr e) = rw e

check_outs_of_HasOuts : (o : Option SlogLogging) → HasOuts o → check_outs o ≡ returns (ok tt)
unfolding check_outs
check_outs_of_HasOuts none h = absurd h
check_outs_of_HasOuts (some s) (text, json) =
    rw (check_out_of_IsOut "text" s.text_out text, check_out_of_IsOut "json" s.json_out json)

-- A pointer that `LoadConfig` reads is nil; the output of JSON is read behind a good output of text.
abbrev pub LacksOut : Option SlogLogging → Type 0
LacksOut none = Unit
LacksOut (some s) = (s.text_out ≡ none) ⊎ (IsOut s.text_out × (s.json_out ≡ none))

check_out_panics :
    (what : String) (o : Option String) → (check_out what o ≡ panicked nil_dereference) ↔ (o ≡ none)
unfolding check_out
check_out_panics what none = (λ h. refl, λ h. refl)
check_out_panics what (some out) = elim (Bool-cases (out == "stdout" || out == "stderr")) [
  | inl e ↦ (λ h. absurd (cc (rw (e, check_out) at h)), λ h. absurd (cc h))
  | inr e ↦ (λ h. absurd (cc (rw (e, check_out) at h)), λ h. absurd (cc h))
]

check_outs_panics :
    (o : Option SlogLogging) → (check_outs o ≡ panicked nil_dereference) ↔ LacksOut o
unfolding check_outs
check_outs_panics none = (λ h. tt, λ h. refl)
check_outs_panics (some s) = (
  λ h.
      elim (and_on-eq-panicked (check_out "text" s.text_out) (λ u. check_out "json" s.json_out)
        {e = nil_dereference} h) [
          | inl text ↦ inl ((check_out_panics "text" s.text_out).0 text)
          | inr (u, text, json) ↦
              inr (
                check_out-IsOut "text" s.text_out text,
                (check_out_panics "json" s.json_out).0 json,
              )
        ],
  λ lacks. elim lacks [
    | inl text ↦ rw ((check_out_panics "text" s.text_out).1 text)
    | inr (text, json) ↦
        rw (check_out_of_IsOut "text" s.text_out text, (check_out_panics "json" s.json_out).1 json)
  ],
)

unless-eq-ok :
    (o : Option GoError) (c : Config) {d : Config} → unless o c ≡ ok d → (o ≡ none) × (c ≡ d)
unless-eq-ok none c h = (refl, cc h)
unless-eq-ok (some e) c h = cc

module _ (L : UrlLibrary) (decode_file : String → Config → Result Config) where
  -- The steps of `LoadConfig`, where it returns no error.
  pub load_config_steps :
      (name : String) (c : Config)
      → load_config L decode_file name ≡ returns (ok c)
      → (decoded : Config) × (decode_file name default_config ≡ ok decoded)
        × (check_outs (slog_of (set_defaults decoded)) ≡ returns (ok tt))
        × (validate L (some (set_defaults decoded)) ≡ none)
        × (set_defaults decoded ≡ c)
  unfolding load_config
  load_config_steps name c loaded =
      let (decoded, h₁, e₁) = and_on-eq-ok (returns (decode_file name default_config)) _ loaded in
      let read : decode_file name default_config ≡ ok decoded = cc h₁ in
      let whole = set_defaults decoded in
      let (u, h₂, e₂) =
        and_on-eq-ok (check_outs (slog_of whole))
          (λ u. returns (unless (validate L (some whole)) whole)) {b = c} e₁ in
      let (valid, same) = unless-eq-ok (validate L (some whole)) whole (cc e₂) in
      (decoded, read, h₂, valid, same)

  -- Where they all succeed, so does `LoadConfig`.
  pub load_config_of_steps :
      (name : String) (decoded : Config)
      → decode_file name default_config ≡ ok decoded
      → check_outs (slog_of (set_defaults decoded)) ≡ returns (ok tt)
      → validate L (some (set_defaults decoded)) ≡ none
      → load_config L decode_file name ≡ returns (ok (set_defaults decoded))
  unfolding load_config
  load_config_of_steps name decoded read outs valid = rw (read, outs, valid)

  load_config_panics :
      (name : String)
      → (load_config L decode_file name ≡ panicked nil_dereference) ↔ (
          (decoded : Config) × (decode_file name default_config ≡ ok decoded)
          × LacksOut (slog_of (set_defaults decoded)))
  unfolding load_config
  load_config_panics name = (
    λ h. elim (and_on-eq-panicked (returns (decode_file name default_config)) _ h) [
      | inl x ↦ absurd (cc x)
      | inr (decoded, read, rest) ↦
          let whole = set_defaults decoded in
          elim (and_on-eq-panicked (check_outs (slog_of whole))
            (λ u. returns (unless (validate L (some whole)) whole)) {e = nil_dereference} rest) [
              | inl y ↦ (decoded, cc read, (check_outs_panics (slog_of whole)).0 y)
              | inr (u, _, y) ↦ absurd (cc y)
            ]
    ],
    λ (decoded, read, lacks).
        rw (read, (check_outs_panics (slog_of (set_defaults decoded))).1 lacks),
  )

  -- A configuration that is loaded is the decoded file with its defaults filled in, passes
  -- `Validate`, and writes both kinds of logs to stdout or to stderr.
  pub load_config-HasOuts :
      (name : String) (c : Config)
      → load_config L decode_file name ≡ returns (ok c)
      → ((decoded : Config) × (decode_file name default_config ≡ ok decoded)
          × (set_defaults decoded ≡ c))
        × (validate L (some c) ≡ none)
        × HasOuts (slog_of c)
  load_config-HasOuts name c loaded =
      let (decoded, read, outs, valid, whole) = load_config_steps name c loaded in
      (
        (decoded, read, whole),
        rw whole at valid,
        rw whole at (check_outs-HasOuts (slog_of (set_defaults decoded)) outs),
      )

  -- `LoadConfig` returns a configuration exactly if that is what the file is decoded to, on top of the default
  -- one, with the defaults of notation filled in, and it has both outputs of the logs, each of
  -- them stdout or stderr, and passes `Validate`. And it panics exactly if the file can be decoded
  -- and one of the pointers on the way to the outputs is nil, where the output of JSON logs
  -- is only read behind a good output of text logs.
  pub load_config_iff :
      (name : String) (c : Config)
      → ((load_config L decode_file name ≡ returns (ok c)) ↔ (
          (decoded : Config) × (decode_file name default_config ≡ ok decoded)
          × (set_defaults decoded ≡ c)
          × HasOuts (slog_of c)
          × (validate L (some c) ≡ none)))
        × ((load_config L decode_file name ≡ panicked nil_dereference) ↔ (
            (decoded : Config) × (decode_file name default_config ≡ ok decoded)
            × LacksOut (slog_of (set_defaults decoded))))
  load_config_iff name c = (
    (
      λ loaded.
          let ((decoded, read, whole), valid, outs) = load_config-HasOuts name c loaded in
          (decoded, read, whole, outs, valid),
      λ (decoded, read, whole, outs, valid). rw whole at (
          load_config_of_steps name decoded read
            (check_outs_of_HasOuts (slog_of (set_defaults decoded)) (rw (sym whole) at outs))
            (rw (sym whole) at valid)),
    ),
    load_config_panics name,
  )
