-- ===== src/Backends.antt =====
-- Of runtime/backends.py: which failures of a model call say that the other end is busy.
use text.Mathlib.Text.{starts_with}
use my_org.Common.{String, Bool, ◌||◌, List, [], ◌∷◌, ◌==◌, some_of}

-- `marker in text`.
abbrev pub contains : String → String → Bool
contains marker String.[] = marker == ""
contains marker (String.◌∷◌ c s) = starts_with (String.◌∷◌ c s) marker || contains marker s

-- TRANSIENT_MARKERS.
abbrev transient_markers : List String
transient_markers =
    "529" ∷ "overloaded" ∷ "503" ∷ "service unavailable" ∷ "502" ∷ "bad gateway" ∷ "504"
    ∷ "gateway timeout" ∷ "429" ∷ "rate limit" ∷ "timed out" ∷ "timeout" ∷ "connection reset"
    ∷ "connection refused" ∷ "temporarily" ∷ []

-- TEARDOWN_MARKERS.
abbrev teardown_markers : List String
teardown_markers = "hook cancelled" ∷ "hook canceled" ∷ "sessionend hook" ∷ "session_end hook" ∷ []

-- The first argument is `str.lower`.
unfoldable pub is_transient : (String → String) → String → Bool
is_transient lower message = some_of (λ marker. contains marker (lower message)) transient_markers

unfoldable pub is_teardown_noise : (String → String) → String → Bool
is_teardown_noise lower message =
    some_of (λ marker. contains marker (lower message)) teardown_markers
