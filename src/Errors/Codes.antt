-- ===== src/Errors/Codes.antt =====
-- errors.go: error codes and categories.
use dst_go.Base.{ℕ, ◌/◌, ◌≡◌, Option, none, some}
use dst_go.Errors.{
  ErrorCategory, participant_error, client_error, protocol_fatal_error, internal_error, ApiError,
}

abbrev pub hundreds : ErrorCategory → ℕ
hundreds participant_error = 1
hundreds client_error = 2
hundreds protocol_fatal_error = 3
hundreds internal_error = 4

abbrev pub IsWellCoded : ApiError → Type 0
IsWellCoded e = e.code / 100 ≡ hundreds e.category

-- An optional error, such as the result of an API call, is absent or well coded.
abbrev pub IsWellCoded? : Option ApiError → Type 0
IsWellCoded? none = Unit {0}
IsWellCoded? (some e) = IsWellCoded e
