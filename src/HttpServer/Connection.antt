-- ===== src/HttpServer/Connection.antt =====
-- crates/core/src/http.rs: `write_response` and `serve_connection`.
pub mod Serves
pub mod Alone
pub mod Answers
use ps_payload_rust.Base.{ℕ, none, some, codes, Option}
use ps_payload_rust.Sys.{Sys}
use ps_payload_rust.Ps5.Error.{Result, ok, err}
use ps_payload_rust.Ps5.Effect.{M, pure, ◌>>=◌, ◌>>◌, attempt}
use ps_payload_rust.Ps5.Net.Stream.{TcpStream, both, write_all, shutdown}
use ps_payload_rust.HttpServer.Request.{Request}
use ps_payload_rust.HttpServer.Response.{Response, encode, new, text}
use ps_payload_rust.HttpServer.Read.{Limits, read_request}

-- `Response::new(400).text("Bad Request")`
unfoldable pub bad_request : Response
unfolding new text
bad_request = text (new 400) (codes "Bad Request")

-- A handler that makes no call and always returns.
abbrev pub returning : {S : Type 0} → (Request → Response) → Request → M S Response
returning handler req = pure (handler req)

module _ (K : Sys) (fuel : ℕ) where
  unfoldable pub write_response : TcpStream → Response → M K.State (Unit {0})
  unfolding write_all encode
  write_response s response = write_all K fuel s (encode response)

  -- `let _ = stream.shutdown(Shutdown::Both);`
  unfoldable pub shut_both : TcpStream → M K.State (Unit {0})
  unfolding shutdown
  shut_both s = do _ ← attempt (shutdown K s both); pure tt

  -- The last two statements of `serve_connection`.
  unfoldable pub answer : TcpStream → Response → M K.State (Unit {0})
  unfolding write_response shut_both
  answer s response = do _ ← attempt (write_response s response); shut_both s

  -- The handler is a closure of the server's owner: it may make calls, fail to return, or panic.
  unfoldable pub serve_result :
      TcpStream → (Request → M K.State Response) → Result (Option Request) → M K.State (Unit {0})
  unfolding answer bad_request
  serve_result s handler (ok (some req)) = do response ← handler req; answer s response
  serve_result s handler (ok none) = shut_both s
  serve_result s handler (err e) = answer s bad_request

  unfoldable pub serve_connection :
      TcpStream → (Request → M K.State Response) → Limits → M K.State (Unit {0})
  unfolding read_request serve_result
  serve_connection s handler limits = do
    r ← attempt (read_request K fuel s limits)
    serve_result s handler r
