-- ===== src/Protocol/Password/Request.antt =====
-- src/protocol/handshake/password_method/request.rs
pub mod Contract
pub mod Accepted
use socks5_impl.Prelude.{ℕ, ◌+◌, List, [], ◌∷◌, get_or, take, length, as_u8}
use socks5_impl.Stream.{Reader, ◌>>=◌, ◌>>◌, pure, read_exact, read_u8}
use socks5_impl.Protocol.Operation.{put_u8, put_slice, ◌▹◌, StreamOperation}
use socks5_impl.Protocol.Password.UserKey.{
  UserKey, subnegotiation_version, username_arr, password_arr, require_subnegotiation, from_utf8,
  IsUserKey, IsWritableKey,
}

pub record Request : Type 0 where
  pub user_key : UserKey

abbrev pub new : List ℕ → List ℕ → Request
new username password = record { user_key = record { username = username; password = password } }

unfoldable pub retrieve_from_stream : Reader Request
retrieve_from_stream = do
  ver ← read_exact 1
  require_subnegotiation (get_or ver 0 0)
  head ← read_exact 1
  let ulen : ℕ = get_or head 0 0
  buf ← read_exact (ulen + 1)
  let plen : ℕ = get_or buf ulen 0
  username ← from_utf8 (take ulen buf)
  password ← read_exact plen
  pwd ← from_utf8 password
  pure (record { user_key = record { username = username; password = pwd } })

unfoldable pub retrieve_from_async_stream : Reader Request
retrieve_from_async_stream = do
  ver ← read_u8
  require_subnegotiation ver
  ulen ← read_u8
  buf ← read_exact (ulen + 1)
  let plen : ℕ = get_or buf ulen 0
  username ← from_utf8 (take ulen buf)
  password ← read_exact plen
  pwd ← from_utf8 password
  pure (record { user_key = record { username = username; password = pwd } })

unfoldable pub write_to_buf : Request → List ℕ → List ℕ
unfolding username_arr password_arr
write_to_buf x buf =
    let username : List ℕ = username_arr x.user_key in
    let password : List ℕ = password_arr x.user_key in
    buf
    ▹ put_u8 subnegotiation_version
    ▹ put_u8 (as_u8 (length username))
    ▹ put_slice username
    ▹ put_u8 (as_u8 (length password))
    ▹ put_slice password

unfoldable pub len : Request → ℕ
unfolding username_arr password_arr
len x = 3 + length (username_arr x.user_key) + length (password_arr x.user_key)

instance abbrev pub password_request_operation : StreamOperation Request
password_request_operation = record {
  retrieve_from_stream = retrieve_from_stream;
  retrieve_from_async_stream = retrieve_from_async_stream;
  write_to_buf = write_to_buf;
  len = len;
}

abbrev pub IsRequest : Request → Type 0
IsRequest x = IsUserKey x.user_key

abbrev pub IsWritable : Request → Type 0
IsWritable x = IsWritableKey x.user_key
