-- ===== src/Files.antt =====
-- src/ownedc_file.c: the wrapper of a file. What `fopen` returns is an argument.
pub mod Close
use owned_c.Base.{ℕ, true, false, ◌==◌, if◌then◌else◌}
use owned_c.Runtime.State.{Ptr, null, fopen_call, fclose_call}
use owned_c.Runtime.Command.{◌>>=◌, ◌>>◌, pure, undefined}
use owned_c.Runtime.Allocator.{call_out}
use owned_c.Runtime.Registry.{unless}
use owned_c.Runtime.Alloc.{owner_malloc, owner_free}
use owned_c.Objects.{Act, SafeFile, safe_file, deref, assign}

-- `sizeof(safe_file_t)`
abbrev pub file_size : ℕ
file_size = 16

unfoldable pub read_file : Ptr → Act SafeFile
read_file p = do o ← deref p; elim o [ safe_file x ↦ pure x | _ ↦ undefined ]

unfoldable pub safe_fopen : (filename mode : Ptr) → (raw_file : Ptr) → Act Ptr
safe_fopen filename mode raw_file = do
  call_out (fopen_call filename mode)
  if raw_file == null then pure null else do
    file ← owner_malloc file_size
    if file == null then (do call_out (fclose_call raw_file); pure null) else do
      assign file file_size (safe_file (record { handle = raw_file; is_closed = false }))
      pure file

unfoldable pub safe_fclose : (file : Ptr) → Act Unit
safe_fclose file = if file == null then pure tt else do
  f ← read_file file
  unless f.is_closed (do
    unless (f.handle == null) (call_out (fclose_call f.handle))
    assign file file_size (safe_file (record f { is_closed = true })))
  owner_free file

unfoldable pub safe_file_get : (file : Ptr) → Act Ptr
safe_file_get file =
    if file == null
    then pure null
    else do f ← read_file file; pure (if f.is_closed then null else f.handle)

-- The cleanup of an `OWNED_FILE` variable, on the value that the variable holds.
unfoldable pub cleanup_safe_file : (file : Ptr) → Act Unit
cleanup_safe_file file = unless (file == null) (safe_fclose file)
