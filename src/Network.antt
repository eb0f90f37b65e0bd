-- ===== src/Network.antt =====
-- The system calls of include/networking, and the handlers that the servers are given. What the
-- operating system answers is a parameter, which may depend on all that was called before.
use trading_matcher.Base.{ℕ, ℤ, pos, negsuc, Bool, true, false, List, [], ◌∷◌, ◌++◌}

pub data SocketOption : Type 0 where
  reuse_addr : SocketOption
  reuse_port : SocketOption
  no_delay : SocketOption
  busy_poll : SocketOption
  receive_buffer : SocketOption
  add_membership : SocketOption

pub data Call : Type 0 where
  epoll_create1 : Call
  stream_socket : Call  -- `socket(AF_INET, SOCK_STREAM | SOCK_NONBLOCK, 0)`
  datagram_socket : Call  -- `socket(AF_INET, SOCK_DGRAM, 0)`
  get_flags : (fd : ℤ) → Call
  set_nonblocking : (fd : ℤ) (flags : ℤ) → Call  -- `fcntl(fd, F_SETFL, flags | O_NONBLOCK)`
  setsockopt : (fd : ℤ) (option : SocketOption) (value : ℕ) → Call
  bind : (fd : ℤ) (port : ℕ) → Call
  listen : (fd : ℤ) → Call
  epoll_add : (epoll_fd : ℤ) (fd : ℤ) → Call  -- EPOLL_CTL_ADD, edge-triggered
  epoll_del : (epoll_fd : ℤ) (fd : ℤ) → Call
  epoll_wait : (epoll_fd : ℤ) (timeout_ms : ℤ) → Call
  accept4 : (fd : ℤ) → Call
  read : (fd : ℤ) (size : ℕ) → Call
  recvfrom : (fd : ℤ) (size : ℕ) → Call
  recv : (fd : ℤ) (size : ℕ) → Call
  sendto : (fd : ℤ) (bytes : List ℕ) (to : ℕ) → Call
  poll : (fd : ℤ) → Call
  pause : Call
  usleep : (microseconds : ℕ) → Call
  close : (fd : ℤ) → Call
  handler : (fd : ℤ) (bytes : List ℕ) (len : ℤ) → Call  -- the handler of an `EpollServer`
  datagram_handler : (bytes : List ℕ) (len : ℤ) (from : ℕ) → Call  -- that of a `UDPServer`
  feed_handler : (bytes : List ℕ) (len : ℤ) → Call  -- that of a `UDPMulticastReceiver`

-- `errno`, as far as the servers tell its values apart; `again` is EAGAIN or EWOULDBLOCK.
pub data Errno : Type 0 where
  again : Errno
  interrupted : Errno
  other : Errno

abbrev pub is_again : Errno → Bool
is_again again = true
is_again interrupted = false
is_again other = false

abbrev pub is_interrupted : Errno → Bool
is_interrupted again = false
is_interrupted interrupted = true
is_interrupted other = false

-- `result < 0`
abbrev pub failed : ℤ → Bool
failed (pos n) = false
failed (negsuc n) = true

-- What a call returns, and what it leaves in `errno` and its buffers.
pub record Reply : Type 0 where
  pub value : ℤ
  pub errno : Errno
  pub bytes : List ℕ
  pub from : ℕ
  pub ready : List ℤ

abbrev pub Os : Type 0
Os = List Call → Call → Reply

-- The calls made so far, oldest first, with one more.
abbrev pub did : List Call → Call → List Call
did calls c = calls ++ c ∷ []
