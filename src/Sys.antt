-- ===== src/Sys.antt =====
-- The foreign functions of crates/ps5-sys that the upper layers call. The C library, the Sony
-- libraries and the constants that bindgen generates from the SDK headers are no code of this
-- repository: they are the fields of the record `Sys`, a parameter of the whole development.
use ps_payload_rust.Base.{ℕ, Bytes, List, Option}
use ps_payload_rust.Base.Int.{ℤ}

-- `sockaddr_in`; ports and addresses are the numbers that stand in memory (network byte order).
pub record SockaddrIn : Type 0 where
  pub sin_len : ℕ
  pub sin_family : ℕ
  pub sin_port : ℕ
  pub s_addr : ℕ

-- An entry of the list that `getaddrinfo` builds; `ai_addr` may be a null pointer.
pub record Addrinfo : Type 0 where
  pub ai_family : ℤ
  pub ai_addr : Option SockaddrIn

-- The fields of `stat` that are read.
pub record Stat : Type 0 where
  pub st_size : ℤ
  pub st_mode : ℕ

-- `dirent`: the length of the name, and the array that begins with it.
pub record Dirent : Type 0 where
  pub d_namlen : ℕ
  pub d_name : Bytes

-- One foreign call with its arguments. An out-pointer is no argument: what is written through it
-- is part of the reply. A readable buffer is passed with its bytes.
pub data Call : Type 0 where
  socket : ℤ → ℤ → ℤ → Call
  close : ℤ → Call
  fcntl_get : ℤ → ℤ → Call
  fcntl_set : ℤ → ℤ → ℤ → Call
  setsockopt : ℤ → ℤ → ℤ → ℤ → Call
  recv : ℤ → ℕ → ℤ → Call
  send : ℤ → Bytes → ℤ → Call
  connect : ℤ → SockaddrIn → ℕ → Call
  shutdown : ℤ → ℤ → Call
  bind : ℤ → SockaddrIn → ℕ → Call
  listen : ℤ → ℤ → Call
  accept : ℤ → ℕ → Call
  sendto : ℤ → Bytes → ℤ → SockaddrIn → ℕ → Call
  recvfrom : ℤ → ℕ → ℤ → ℕ → Call
  getaddrinfo : Bytes → Bytes → ℤ → ℤ → Call
  freeaddrinfo : List Addrinfo → Call
  pthread_attr_init : Call
  pthread_attr_setstacksize : ℕ → Call
  pthread_attr_destroy : Call
  pthread_create : Option ℕ → ℤ → Call
  pthread_join : ℤ → Call
  pthread_mutex_init : ℤ → Call
  pthread_mutex_lock : ℤ → Call
  pthread_mutex_unlock : ℤ → Call
  pthread_mutex_destroy : ℤ → Call
  pthread_cond_init : ℤ → Call
  pthread_cond_wait : ℤ → ℤ → Call
  pthread_cond_signal : ℤ → Call
  pthread_cond_broadcast : ℤ → Call
  pthread_cond_destroy : ℤ → Call
  pthread_detach : ℤ → Call
  sce_net_init : Call
  sce_net_pool_create : Bytes → ℤ → ℤ → Call
  sce_net_pool_destroy : ℤ → Call
  sce_ssl_init : ℕ → Call
  sce_ssl_term : ℤ → Call
  sce_http2_init : ℤ → ℤ → ℕ → ℤ → Call
  sce_http2_term : ℤ → Call
  sce_http2_create_template : ℤ → Bytes → ℤ → ℤ → Call
  sce_http2_delete_template : ℤ → Call
  sce_http2_create_request_with_url : ℤ → Bytes → Bytes → ℕ → Call
  sce_http2_delete_request : ℤ → Call
  sce_http2_send_request : ℤ → Option Bytes → ℕ → Call
  sce_http2_get_status_code : ℤ → Call
  sce_http2_read_data : ℤ → ℕ → Call
  open_path : Bytes → ℕ → ℕ → Call
  read : ℤ → ℕ → Call
  write : ℤ → Bytes → Call
  lseek : ℤ → ℤ → ℤ → Call
  fsync : ℤ → Call
  ftruncate : ℤ → ℤ → Call
  unlink : Bytes → Call
  mkdir : Bytes → ℕ → Call
  rmdir : Bytes → Call
  rename : Bytes → Bytes → Call
  access : Bytes → ℤ → Call
  stat : Bytes → Call
  opendir : Bytes → Call
  readdir : ℤ → Call
  closedir : ℤ → Call
  -- The store `*__error() = 0`, which is no call of a function.
  clear_errno : Call

-- What a call hands back: its return value, and what it wrote through its out-pointers. A field
-- that the call has no pointer for is not read.
pub record Reply : Type 0 where
  -- The return value; of a pointer its address, 0 for a null pointer.
  pub ret : ℤ
  -- The bytes written to the start of the buffer.
  pub data_out : Bytes
  -- The socket address written.
  pub peer : SockaddrIn
  -- The integer written.
  pub value : ℤ
  -- The list that `getaddrinfo` made.
  pub addresses : List Addrinfo
  -- The `stat` written.
  pub info : Stat
  -- The entry that a pointer returned points to.
  pub entry : Dirent

-- A call that was made, with its reply.
pub record Event : Type 0 where
  pub asked : Call
  pub answered : Reply

-- The platform: the calls act on a state that nothing else is known of.
pub record Sys : Type 1 where
  pub State : Type 0
  -- The calling thread's `errno` slot.
  pub errno : State → ℤ
  pub respond : Call → State → Reply × State
  pub eagain : ℤ
  pub ewouldblock : ℤ
  pub eintr : ℤ
  pub einval : ℤ
  pub af_inet : ℕ
  pub sock_stream : ℤ
  pub sock_dgram : ℤ
  pub sol_socket : ℤ
  pub so_reuseaddr : ℤ
  pub ipproto_tcp : ℤ
  pub tcp_nodelay : ℤ
  pub f_getfl : ℤ
  pub f_setfl : ℤ
  pub shut_rd : ℤ
  pub shut_wr : ℤ
  pub shut_rdwr : ℤ
  -- `size_of::<sockaddr_in>()`
  pub sockaddr_in_len : ℕ
  -- `flags | O_NONBLOCK` and `flags & !O_NONBLOCK` on `c_int`
  pub with_nonblock : ℤ → ℤ
  pub without_nonblock : ℤ → ℤ
  pub o_rdonly : ℕ
  pub o_wronly : ℕ
  pub o_rdwr : ℕ
  pub o_append : ℕ
  pub o_creat : ℕ
  pub o_excl : ℕ
  pub o_trunc : ℕ
  pub seek_set : ℤ
  pub seek_cur : ℤ
  pub seek_end : ℤ
  pub s_ifmt : ℕ
  pub s_ifdir : ℕ
  pub s_ifreg : ℕ
  pub f_ok : ℤ
  -- The message of `strerror`; `none` for a null pointer.
  pub strerror : ℤ → Option Bytes
