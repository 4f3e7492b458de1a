-- ===== src/RequestId.antt =====
-- platform/requestid/requestid.go. The regular expression is `^[A-Za-z0-9._:-]{1,128}$`, and what
-- rand.Text draws is a parameter.
use content_platform.Prelude.{
  ℕ, Text, [], ◌∷◌, codes, Bool, true, ◌&&◌, ◌||◌, leb, ◌==◌, length, if◌then◌else◌,
}
use content_platform.Http.{Request, Handler, get}
use content_platform.Httpx.Recorder.{set_header}

-- The canonical form of "X-Request-ID"
abbrev pub header : Text
header = codes "X-Request-Id"

unfoldable pub is_request_id_character : ℕ → Bool
is_request_id_character c =
    (leb b'A' c && leb c b'Z')
    || (leb b'a' c && leb c b'z')
    || (leb b'0' c && leb c b'9')
    || (c == b'.')
    || (c == b'_')
    || (c == b':')
    || (c == b'-')

unfoldable pub all_characters : Text → Bool
unfolding is_request_id_character
all_characters [] = true
all_characters (c ∷ s) = is_request_id_character c && all_characters s

-- `Valid`
unfoldable pub valid : Text → Bool
unfolding all_characters
valid value = leb 1 (length value) && leb (length value) 128 && all_characters value

-- The identifier of a request.
unfoldable pub choose : Text → Text → Text
choose random_text own = if valid own then own else random_text

-- The request with its identifier in its context.
unfoldable pub identified : Text → Request → Request
unfolding choose
identified random_text r = record r {
  context = record r.context { request_id = choose random_text (get header r.header) };
}

-- `Middleware`
unfoldable pub middleware : {S : Type 0} → Text → Handler S → Handler S
unfolding identified
middleware random_text next r w =
    let named = identified random_text r in
    next named (record w { writer = set_header header named.context.request_id w.writer })
