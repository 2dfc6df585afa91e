-- ===== src/Generics.antt =====
-- include/ownedc_generics.h: the vector of one type, over src/collections.c. A vector that is handed over
-- by its address is an argument and a result, and a null address is `none`.
use owned_c.Base.{ℕ, Option, none, some, ◌==◌, if◌then◌else◌}
use owned_c.Runtime.State.{Ptr, null}
use owned_c.Runtime.Command.{pure, ◌>>=◌, ◌>>◌}
use owned_c.Objects.{Act}
use owned_c.Collections.{
  safe_vector_create, safe_vector_free, safe_vector_push, safe_vector_get, safe_vector_length,
  safe_vector_remove,
}

-- `Name`
pub record TypedVector : Type 0 where
  pub inner : Ptr

-- `Name##_new` and its kin
unfoldable pub typed_new : Act TypedVector
typed_new = do vec ← safe_vector_create 16; pure (record { inner = vec })

unfoldable pub typed_free : Option TypedVector → Act (Option TypedVector)
typed_free none = pure none
typed_free (some v) =
    if v.inner == null
    then pure (some v)
    else do safe_vector_free v.inner; pure (some (record { inner = null }))

abbrev pub typed_push : TypedVector → (item : Ptr) → Act Unit
typed_push v item = safe_vector_push v.inner item

abbrev pub typed_get : TypedVector → (index : ℕ) → Act Ptr
typed_get v index = safe_vector_get v.inner index

abbrev pub typed_length : TypedVector → Act ℕ
typed_length v = safe_vector_length v.inner

abbrev pub typed_remove : TypedVector → (index : ℕ) → Act Unit
typed_remove v index = safe_vector_remove v.inner index
