-- ===== src/Spec/Issues.antt =====
-- clients/devbox/src/spec/issues.ts: the diagnostics of a spec.
use remote_devbox.Base.{String, Bool, List, [], ◌∷◌, ◌++◌, map, any, concat, join, filter}

pub data Severity : Type 0 where
  error warning : Severity

pub record Issue : Type 0 where
  pub severity : Severity
  pub path : String
  pub message : String

abbrev pub err : String → String → Issue
err path message = record { severity = error; path = path; message = message }

abbrev pub warn : String → String → Issue
warn path message = record { severity = warning; path = path; message = message }

abbrev pub is_error : Issue → Bool
is_error issue = elim issue.severity [ error ↦ Bool.true | warning ↦ Bool.false ]

abbrev is_warning : Issue → Bool
is_warning issue = elim issue.severity [ error ↦ Bool.false | warning ↦ Bool.true ]

unfoldable pub has_errors : List Issue → Bool
has_errors issues = any is_error issues

line : Issue → String
line issue = concat (
    elim issue.severity [ error ↦ "ERROR " | warning ↦ "warn  " ]
    ∷ " "
    ∷ issue.path
    ∷ ": "
    ∷ issue.message
    ∷ [])

unfoldable pub format_issues : List Issue → String
unfolding line
format_issues issues = join "\n" (map line (filter is_error issues ++ filter is_warning issues))
