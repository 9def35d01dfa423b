-- ===== src/Probe/Text.antt =====
-- internal/probe/probe.go, tools/tool.go: the redaction and the truncation of texts. A Go string is
-- measured in bytes.
use talkintent.Common.{ℕ, ◌+◌, ◌≤◌, String, Bool, List, [], ◌∷◌, ◌≡◌, leb, if◌then◌else◌}

-- What the probe uses of Go's standard library.
pub record TextLibrary : Type 0 where
  pub trim_space : String → String
  pub to_upper : String → String
  -- strings.HasPrefix, the text first
  pub has_prefix : String → String → Bool
  pub join : String → String → String
  pub byte_length : String → ℕ
  -- s[:n] and s[n:]
  pub first_bytes : ℕ → String → String
  pub after_bytes : ℕ → String → String
  -- %q
  pub quoted : String → String
  -- (*Regexp).ReplaceAllString: the pattern, the text, what stands in
  pub replace_all : String → String → String → String
  pub sort_strings : List String → List String
  -- the `reason` of a JSON object, empty where there is none
  pub reason_in : String → String

-- A slice is no longer than it says, and lengths add up.
pub record Measures (lib : TextLibrary) : Type 0 where
  pub length-first_bytes : (n : ℕ) (t : String) → lib.byte_length (lib.first_bytes n t) ≤ n
  pub length-join :
      (s t : String) → lib.byte_length (lib.join s t) ≡ lib.byte_length s + lib.byte_length t
  pub length-empty : lib.byte_length "" ≡ 0

abbrev pub max_answer_bytes : ℕ
max_answer_bytes = 16384

abbrev pub max_tool_output_bytes : ℕ
max_tool_output_bytes = 65536

abbrev pub answer_mark : String
answer_mark = " [truncated by TalkIntent daemon]"

abbrev pub output_mark : String
output_mark = "\n[truncated by TalkIntent]"

abbrev pub redaction_patterns : List String
redaction_patterns =
    "\\b10\\.\\d{1,3}\\.\\d{1,3}\\.\\d{1,3}\\b" ∷ "\\b192\\.168\\.\\d{1,3}\\.\\d{1,3}\\b"
    ∷ "\\b172\\.(1[6-9]|2[0-9]|3[0-1])\\.\\d{1,3}\\.\\d{1,3}\\b"
    ∷ "(?i)(sk-proj-[a-zA-Z0-9_\\-]{20,})" ∷ "(?i)(sk-[a-zA-Z0-9]{20,})"
    ∷ "(?i)(ghp_[a-zA-Z0-9]{20,})" ∷ "(?i)(github_pat_[a-zA-Z0-9_]{22,})" ∷ "(?i)(AKIA[0-9A-Z]{16})"
    ∷ "(?i)(bearer\\s+[a-zA-Z0-9_\\-\\.]{20,})"
    ∷ "\\beyJ[a-zA-Z0-9_\\-]{10,}\\.[a-zA-Z0-9_\\-]{10,}\\.[a-zA-Z0-9_\\-]{10,}\\b" ∷ []

abbrev pub redact_with : TextLibrary → List String → String → String
redact_with lib [] text = text
redact_with lib (p ∷ ps) text = redact_with lib ps (lib.replace_all p text "[REDACTED]")

unfoldable pub redact : TextLibrary → String → String
redact lib text = redact_with lib redaction_patterns text

unfoldable pub truncate_answer : TextLibrary → String → String
truncate_answer lib ans =
    if leb (lib.byte_length ans) max_answer_bytes
    then ans
    else lib.join (lib.first_bytes max_answer_bytes ans) answer_mark

unfoldable pub truncate_output : TextLibrary → String → ℕ → String
truncate_output lib s most =
    if leb (lib.byte_length s) most then s else lib.join (lib.first_bytes most s) output_mark
