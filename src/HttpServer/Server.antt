-- ===== src/HttpServer/Server.antt =====
-- crates/core/src/http.rs: `Server`, its settings and the accept loop of `serve`.
pub mod Holds
pub mod Closes
use ps_payload_rust.Base.{ℕ, zero, suc, Bool, List, Option, some, if◌then◌else◌}
use ps_payload_rust.Base.Int.{ℤ}
use ps_payload_rust.Sys.{Sys}
use ps_payload_rust.Ps5.Error.{Error, Result, ok, err}
use ps_payload_rust.Ps5.Effect.{M, pure, fail, out_of_fuel, ◌>>=◌, ◌>>◌, attempt, drop_after}
use ps_payload_rust.Ps5.Net.Address.{SocketAddr}
use ps_payload_rust.Ps5.Net.Stream.{TcpStream, drop_stream, is_interrupted}
use ps_payload_rust.Ps5.Net.Listener.{TcpListener, bind, accept, drop_listener}
use ps_payload_rust.Ps5.Thread.Create
use ps_payload_rust.Ps5.Thread.Create.{Builder, JoinHandle, spawn, drop_handle}
use ps_payload_rust.HttpServer.Request.{Request}
use ps_payload_rust.HttpServer.Response.{Response}
use ps_payload_rust.HttpServer.Read.{Limits}
use ps_payload_rust.HttpServer.Connection.{serve_connection}

pub record Server : Type 0 where
  pub stack_size : ℕ
  pub limits : Limits

abbrev default_stack_size : ℕ
default_stack_size = 131_072

abbrev default_max_header_bytes : ℕ
default_max_header_bytes = 65_536

abbrev default_max_body_bytes : ℕ
default_max_body_bytes = 8_388_608

-- `Server::new`
unfoldable pub new : Server
new = record {
  stack_size = default_stack_size;
  limits = record {
    max_header_bytes = default_max_header_bytes;
    max_body_bytes = default_max_body_bytes;
  };
}

-- `Default for Server`
unfoldable default : Server
unfolding new
default = new

unfoldable pub with_stack_size : Server → ℕ → Server
with_stack_size s bytes = record s { stack_size = bytes }

unfoldable pub with_max_header_bytes : Server → ℕ → Server
with_max_header_bytes s bytes = record s {
  limits = record { max_header_bytes = bytes; max_body_bytes = s.limits.max_body_bytes };
}

unfoldable pub with_max_body_bytes : Server → ℕ → Server
with_max_body_bytes s bytes = record s {
  limits = record { max_header_bytes = s.limits.max_header_bytes; max_body_bytes = bytes };
}

-- `thread::Builder::new().stack_size(self.stack_size)`
abbrev pub thread_builder : Server → Builder
thread_builder s = Create.stack_size Create.new s.stack_size

module _ (K : Sys) where
  -- `let _ = ...` drops the handle of the new thread at once.
  abbrev pub drop_spawned : Result JoinHandle → M K.State (Unit {0})
  drop_spawned (ok h) = drop_handle K h
  drop_spawned (err e) = pure tt

  -- A connection's thread: the packet, which holds the stream, is known by the descriptor.
  unfoldable pub start_thread : Server → TcpStream → M K.State (Unit {0})
  unfolding spawn drop_stream drop_handle
  start_thread s stream = do
    r ← attempt (spawn K (thread_builder s) stream.fd (drop_stream K stream))
    drop_spawned r

  -- A round of the loop, behind `accept`; `again` is the next round.
  abbrev pub accept_round :
      Server → M K.State (Unit {0}) → Result (TcpStream × SocketAddr) → M K.State (Unit {0})
  accept_round s again (ok (stream, peer)) = do start_thread s stream; again
  accept_round s again (err e) = if is_interrupted K e then again else fail e

  -- The loop has no end of its own: the fuel is how many rounds of it are looked at.
  unfoldable pub accept_loop : ℕ → Server → TcpListener → M K.State (Unit {0})
  unfolding start_thread accept
  accept_loop zero s l = out_of_fuel
  accept_loop (suc fuel) s l = do r ← attempt (accept K l); accept_round s (accept_loop fuel s l) r

  unfoldable pub serve : ℕ → Server → SocketAddr → M K.State (Unit {0})
  unfolding bind accept_loop drop_listener
  serve fuel s addr = do
    listener ← bind K addr
    drop_after (drop_listener K listener) (accept_loop fuel s listener)

  -- What the closure of a connection's thread does: it owns the stream, and drops it at its end.
  unfoldable pub connection_thread :
      ℕ → Server → (Request → M K.State Response) → TcpStream → M K.State (Unit {0})
  unfolding serve_connection drop_stream
  connection_thread fuel s handler stream =
      drop_after (drop_stream K stream) (serve_connection K fuel stream handler s.limits)
