-- ===== src/Token.antt =====
-- infra/token: the codecs of refresh tokens and of signed access tokens, and what they use of Go's
-- strconv and encoding/base64.
pub mod Decimal
pub mod Base64
pub mod Refresh
pub mod UnixTime
pub mod Access
