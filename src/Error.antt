-- ===== src/Error.antt =====
-- src/error.rs, and the `std::io::Error` values that the other files build.
use Prim.Native.String.{String}
use socks5_impl.Prelude.{ℕ}

-- The kinds of `std::io::Error` that the library makes or meets.
pub data ErrorKind : Type 0 where
  unexpected_eof invalid_input invalid_data unsupported other timed_out broken_pipe : ErrorKind

-- The text of an error: plain, or a format with the number put into it.
pub data Message : Type 0 where
  text : String → Message
  format : String → ℕ → Message

mutual
  -- `io::Error::new(kind, err)`, with a text or with the library's own error inside.
  pub data IoError : Type 0 where
    io_error : ErrorKind → Message → IoError
    wrapped : ErrorKind → Error → IoError

  -- The errors of foreign parsers carry nothing here: the library never looks into them.
  pub data Error : Type 0 where
    io : IoError → Error
    from_utf8 : Error
    invalid_version invalid_command invalid_atyp invalid_reserved : ℕ → Error
    invalid_auth_status invalid_auth_subnegotiation invalid_fragment_id : ℕ → Error
    -- the code of the method
    invalid_auth_method : ℕ → Error
    wrong_version addr_parse_error parse_int_error utf8_error : Error
    string : String → Error

-- `impl From<Error> for std::io::Error`
unfoldable pub io_of_error : Error → IoError
io_of_error (io e) = e
io_of_error e = wrapped other e

-- `impl From<tokio::time::error::Elapsed> for Error`
unfoldable pub error_of_elapsed : Error
error_of_elapsed = io (io_error timed_out (text "deadline has elapsed"))

-- `impl From<&str> for Error`, and for strings
unfoldable pub error_of_text : String → Error
error_of_text s = string s
