-- ===== src/Stages/Download.antt =====
-- AtamuraOKK/ingestion/download.py: NEW -> DOWNLOADED.
-- The transfer itself (Bitrix, HTTP, object storage) is a parameter: what it gives back is an
-- object key or an error text.
use Prim.Native.Char.{Char}
use Prim.Native.String.{◌++◌}
use atamura_okk.Base.{ℕ, ◌+◌, String, Bool, ◌||◌, Option, none, some, leb, str_eq, if◌then◌else◌}
use atamura_okk.Store.{CallStatus, Call}

-- `_MAX_ATTEMPTS`
abbrev pub max_attempts : ℕ
max_attempts = 4

-- `c in "._-"`
abbrev is_safe_mark : Char → Bool
is_safe_mark c =
    str_eq (String.◌∷◌ c String.[]) "."
    || (str_eq (String.◌∷◌ c String.[]) "_" || str_eq (String.◌∷◌ c String.[]) "-")

-- The generator expression of `_object_key`; `str.isalnum` is a parameter.
unfoldable pub sanitize : (Char → Bool) → String → String
sanitize is_alnum String.[] = String.[]
sanitize is_alnum (String.◌∷◌ c s) =
    (if is_alnum c || is_safe_mark c then String.◌∷◌ c String.[] else "_") ++ sanitize is_alnum s

unfoldable pub object_key : (Char → Bool) → String → String
object_key is_alnum bitrix_call_id = "calls/" ++ (sanitize is_alnum bitrix_call_id ++ ".mp3")

-- `_apply_download`
unfoldable pub apply_download : Call → Option String → Option String → Call
apply_download c (some key) none = record c {
  audio_object_key = some key;
  status = CallStatus.downloaded;
  error = none;
  attempts = c.attempts + 1;
  claimed_at = none;
}
apply_download c _ error = record c {
  status = if leb max_attempts (c.attempts + 1) then CallStatus.failed else CallStatus.new;
  error = error;
  attempts = c.attempts + 1;
  claimed_at = none;
}
