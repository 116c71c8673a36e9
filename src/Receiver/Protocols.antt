-- ===== src/Receiver/Protocols.antt =====
-- internal/receiver/decoder.go: the security parameters of a user.
use snmptrap_relay.Model.{SnmpV3UserConfig}
use snmptrap_relay.Prelude.{if◌then◌else◌}
use snmptrap_relay.Result.{Result, ok, err, ◌>>=◌, no_user_name, unsupported_auth, unsupported_priv}
use snmptrap_relay.Text.Space.{trim_space}
use snmptrap_relay.Text.{Text, text_eq, lit, is_empty, same, to_lower}

-- The protocols of gosnmp that the source names.
pub data AuthProtocol : Type 0 where
  no_auth md5 sha sha224 sha256 sha384 sha512 : AuthProtocol

pub data PrivProtocol : Type 0 where
  no_priv des aes aes192 aes256 aes192c aes256c : PrivProtocol

-- gosnmp.UsmSecurityParameters, of which the source sets these
pub record Usm : Type 0 where
  pub user_name : Text
  pub authentication_passphrase : Text
  pub privacy_passphrase : Text
  pub authentication_protocol : AuthProtocol
  pub privacy_protocol : PrivProtocol

-- parseAuthProtocolStrict
unfoldable pub parse_auth : Text → Result AuthProtocol
unfolding to_lower trim_space same
parse_auth value =
    let name = to_lower (trim_space value) in
    if is_empty name
    then ok no_auth
    else if same name (lit "noauth")
    then ok no_auth
    else if same name (lit "md5")
    then ok md5
    else if same name (lit "sha")
    then ok sha
    else if same name (lit "sha224")
    then ok sha224
    else if same name (lit "sha256")
    then ok sha256
    else if same name (lit "sha384")
    then ok sha384
    else if same name (lit "sha512")
    then ok sha512
    else err (unsupported_auth value)

-- parsePrivProtocolStrict
unfoldable pub parse_priv : Text → Result PrivProtocol
unfolding to_lower trim_space same
parse_priv value =
    let name = to_lower (trim_space value) in
    if is_empty name
    then ok no_priv
    else if same name (lit "nopriv")
    then ok no_priv
    else if same name (lit "des")
    then ok des
    else if same name (lit "aes")
    then ok aes
    else if same name (lit "aes192")
    then ok aes192
    else if same name (lit "aes256")
    then ok aes256
    else if same name (lit "aes192c")
    then ok aes192c
    else if same name (lit "aes256c")
    then ok aes256c
    else err (unsupported_priv value)

-- buildUSM
unfoldable pub build_usm : SnmpV3UserConfig → Result Usm
unfolding parse_auth parse_priv trim_space
build_usm user = if is_empty (trim_space user.user_name) then err no_user_name else (do
  auth ← parse_auth user.authentication_protocol
  priv ← parse_priv user.privacy_protocol
  ok (record {
    user_name = user.user_name;
    authentication_passphrase = user.authentication_passphrase;
    privacy_passphrase = user.privacy_passphrase;
    authentication_protocol = auth;
    privacy_protocol = priv;
  }))
