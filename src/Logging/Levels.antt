-- ===== src/Logging/Levels.antt =====
-- The levels of a `Leveler` (pkg/logutil/logutil.go).
use nacp.Common.{
  ◌≡◌, ◌∙◌, String, Bool, true, false, Option, none, some, List, [], ◌∷◌, ◌==◌, inl, inr,
  if◌then◌else◌, Option-cases,
}
use nacp.Logging.{
  SlogLevel, Severity, level_error, level_warn, level_info, level_debug, severity_error,
  severity_warn, severity_info, severity_debug, convert, Leveler, new_leveler, set_level,
}

-- The severity that belongs to a level.
abbrev pub severity_of : SlogLevel → Severity
severity_of level_error = severity_error
severity_of level_warn = severity_warn
severity_of level_info = severity_info
severity_of level_debug = severity_debug

-- A leveler after a series of `Set`s.
abbrev pub set_all : List String → Leveler → Option Leveler
set_all [] l = some l
set_all (s ∷ ss) l = elim (set_level s l) [ none ↦ none | some l' ↦ set_all ss l' ]

levels_agree :
    (a b c d : Bool) (lv : SlogLevel × Severity)
    → (if a
        then some (level_error, severity_error)
        else if b
        then some (level_warn, severity_warn)
        else if c
        then some (level_info, severity_info)
        else if d
        then some (level_debug, severity_debug)
        else none)
      ≡ some lv
    → severity_of lv.0 ≡ lv.1
levels_agree true b c d lv h = cc
levels_agree false true c d lv h = cc
levels_agree false false true d lv h = cc
levels_agree false false false true lv h = cc
levels_agree false false false false lv h = cc

convert-severity_of :
    (s : String) (lv : SlogLevel × Severity) → convert s ≡ some lv → severity_of lv.0 ≡ lv.1
unfolding convert
convert-severity_of s lv = levels_agree (s == "ERROR") _ _ _ lv

-- The level that was set last.
abbrev pub last_level : String → List String → String
last_level s [] = s
last_level s (t ∷ ts) = last_level t ts

-- The variables of a leveler are those of one level.
abbrev pub IsAt : String → Leveler → Type 0
IsAt s l = convert s ≡ some (l.slog_var, l.minsev_var)

new_leveler-IsAt : (s : String) (l : Leveler) → new_leveler s ≡ some l → IsAt s l
unfolding new_leveler
new_leveler-IsAt s l made = elim (Option-cases (convert s)) [
  | inl e ↦ absurd (cc (rw (e, new_leveler) at made))
  | inr (lv, e) ↦ e ∙ cc (rw (e, new_leveler) at made)
]

set_level-IsAt : (s : String) (k l : Leveler) → set_level s k ≡ some l → IsAt s l
unfolding set_level
set_level-IsAt s k l made = elim (Option-cases (convert s)) [
  | inl e ↦ absurd (cc (rw (e, set_level) at made))
  | inr (lv, e) ↦ e ∙ cc (rw (e, set_level) at made)
]

set_all-IsAt :
    (s : String) (ss : List String) (k l : Leveler)
    → IsAt s k
    → set_all ss k ≡ some l
    → IsAt (last_level s ss) l
set_all-IsAt s [] k l reached done = let same : k ≡ l = cc done in rw same at reached
set_all-IsAt s (t ∷ ts) k l reached done = elim (Option-cases (set_level t k)) [
  | inl e ↦ absurd (cc (rw (e, set_all) at done))
  | inr (k', e) ↦ set_all-IsAt t ts k' l (set_level-IsAt t k k' e) (rw (e, set_all) at done)
]

-- After `NewLeveler` and any number of calls of `Set`, none of which panics, the level of slog and
-- the severity of minsev are the two that belong to the level that was set last, and they are of
-- one rank.
pub leveler-agrees :
    (s : String) (ss : List String) (k l : Leveler)
    → new_leveler s ≡ some k
    → set_all ss k ≡ some l
    → (convert (last_level s ss) ≡ some (l.slog_var, l.minsev_var))
      × (severity_of l.slog_var ≡ l.minsev_var)
leveler-agrees s ss k l made done =
    let reached = set_all-IsAt s ss k l (new_leveler-IsAt s k made) done in
    (reached, convert-severity_of (last_level s ss) _ reached)
