-- ===== src/Document/Text.antt =====
-- The texts that boring_agent/model.py tells apart: str.strip, its regular expressions and
-- representable_path. A text is a sequence of Unicode scalar values, so it has no lone surrogate.
use Prim.Native.String.{count as count_chars, len, slice}
use Prim.Native.Char.{code}
use text.Mathlib.Text.{starts_with}
use boring_orch_agent.Base.{ℕ, String, Bool, true, false, ◌||◌, ◌&&◌, not, leb, ◌==◌}

-- str.isspace of one character
is_space : ℕ → Bool
is_space c =
    leb 9 c && leb c 13
    || leb 28 c && leb c 32
    || c == 133
    || c == 160
    || c == 5760
    || leb 8192 c && leb c 8202
    || c == 8232
    || c == 8233
    || c == 8239
    || c == 8287
    || c == 12288

-- not value.strip()
unfoldable pub is_blank : String → Bool
unfolding is_space
is_blank String.[] = true
is_blank (String.◌∷◌ c s) = is_space (code c) && is_blank s

is_lower : ℕ → Bool
is_lower c = leb b'a' c && leb c b'z'

is_upper : ℕ → Bool
is_upper c = leb b'A' c && leb c b'Z'

is_digit : ℕ → Bool
is_digit c = leb b'0' c && leb c b'9'

is_alphanumeric : ℕ → Bool
unfolding is_lower is_upper is_digit
is_alphanumeric c = is_lower c || is_upper c || is_digit c

all_chars : (ℕ → Bool) → String → Bool
all_chars p String.[] = true
all_chars p (String.◌∷◌ c s) = p (code c) && all_chars p s

is_id_char : ℕ → Bool
unfolding is_alphanumeric
is_id_char c = is_alphanumeric c || c == b'.' || c == b'_' || c == b':' || c == b'-'

-- [A-Za-z0-9][A-Za-z0-9._:-]{0,199}
unfoldable pub is_session_id : String → Bool
unfolding all_chars is_id_char is_alphanumeric
is_session_id String.[] = false
is_session_id (String.◌∷◌ c s) =
    is_alphanumeric (code c) && leb (count_chars s) 199 && all_chars is_id_char s

is_hex_char : ℕ → Bool
unfolding is_digit
is_hex_char c = is_digit c || leb b'a' c && leb c b'f'

-- CODDY_SESSION_ID_RE: sess_[0-9a-f]{24}
unfoldable pub is_coddy_session_id : String → Bool
unfolding all_chars is_hex_char
is_coddy_session_id s =
    starts_with s "sess_" && count_chars s == 29 && all_chars is_hex_char (slice s 5 (len s))

is_agent_char : ℕ → Bool
unfolding is_lower is_digit
is_agent_char c = is_lower c || is_digit c || c == b'_' || c == b'-'

-- [a-z0-9][a-z0-9_-]*
unfoldable pub is_agent_name : String → Bool
unfolding all_chars is_agent_char is_lower is_digit
is_agent_name String.[] = false
is_agent_name (String.◌∷◌ c s) =
    (is_lower (code c) || is_digit (code c)) && all_chars is_agent_char s

is_not_nul : ℕ → Bool
is_not_nul c = not (c == 0)

-- representable_path, with UTF-8 as the codec of the file system
unfoldable pub representable_path : String → Bool
unfolding all_chars is_not_nul
representable_path = all_chars is_not_nul
