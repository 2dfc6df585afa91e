-- ===== src/Sockets.antt =====
-- src/ownedc_socket.c: the wrapper of a socket. What `socket` returns is an argument.
pub mod Close
use owned_c.Base.{ℕ, ℤ, negsuc, is_negative, true, false, ◌==◌, if◌then◌else◌}
use owned_c.Runtime.State.{Ptr, null, socket_call, close_call}
use owned_c.Runtime.Command.{◌>>=◌, ◌>>◌, pure, undefined}
use owned_c.Runtime.Allocator.{call_out}
use owned_c.Runtime.Registry.{unless}
use owned_c.Runtime.Alloc.{owner_malloc, owner_free}
use owned_c.Objects.{Act, SafeSocket, safe_socket, deref, assign}

-- `sizeof(safe_socket_t)`
abbrev pub socket_size : ℕ
socket_size = 8

unfoldable pub read_socket : Ptr → Act SafeSocket
read_socket p = do o ← deref p; elim o [ safe_socket x ↦ pure x | _ ↦ undefined ]

unfoldable pub safe_socket_new : (raw_fd : ℤ) → Act Ptr
safe_socket_new raw_fd = if is_negative raw_fd then pure null else do
  sock ← owner_malloc socket_size
  if sock == null then pure null else do
    assign sock socket_size (safe_socket (record { fd = raw_fd; is_closed = false }))
    pure sock

unfoldable pub safe_socket_create : (domain type protocol : ℕ) → (raw_fd : ℤ) → Act Ptr
safe_socket_create domain type protocol raw_fd = do
  call_out (socket_call domain type protocol)
  if is_negative raw_fd then pure null else do
    sock ← safe_socket_new raw_fd
    if sock == null then (do call_out (close_call raw_fd); pure null) else pure sock

unfoldable pub safe_socket_close : (sock : Ptr) → Act Unit
safe_socket_close sock = if sock == null then pure tt else do
  k ← read_socket sock
  unless k.is_closed (do
    unless (is_negative k.fd) (call_out (close_call k.fd))
    assign sock socket_size (safe_socket (record k { is_closed = true })))
  owner_free sock

unfoldable pub safe_socket_get : (sock : Ptr) → Act ℤ
safe_socket_get sock =
    if sock == null
    then pure (negsuc 0)
    else do k ← read_socket sock; pure (if k.is_closed then negsuc 0 else k.fd)

-- The cleanup of an `OWNED_SOCKET` variable, on the value that the variable holds.
unfoldable pub cleanup_safe_socket : (sock : Ptr) → Act Unit
cleanup_safe_socket sock = unless (sock == null) (safe_socket_close sock)
