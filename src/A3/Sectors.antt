-- ===== src/A3/Sectors.antt =====
-- What a3/fs/inode.c uses of the buffer cache, a3/fs/cache.c.
pub mod Cached
use comp.Prelude.{ℕ, ◌≡◌, Bool, Option, some}
use comp.Prelude.Run.{Run, Returns}
use comp.A3.Bytes.{Bytes}
use comp.A3.Cache.Steps.{update}

-- `buffer_cache_read` and `buffer_cache_write` on a state `St`.
pub record Sectors (St : Type 0) : Type 1 where
  pub buffer_cache_read : ℕ → St → Run St Bytes
  pub buffer_cache_write : ℕ → Bytes → St → Run St (Unit {0})

-- `Shows view st`: in the state `st` the sectors have the contents `view`.
pub record IsSectors {St : Type 0} (io : Sectors St) (Shows : (ℕ → Option Bytes) → St → Type 0)
    : Type 0 where
  pub read_ok :
      (view : ℕ → Option Bytes) (s : ℕ) (b : Bytes) (st : St)
      → Shows view st
      → view s ≡ some b
      → Returns (io.buffer_cache_read s st) b (Shows view)
  pub write_ok :
      (view : ℕ → Option Bytes) (s : ℕ) (source b : Bytes) (st : St)
      → Shows view st
      → view s ≡ some b
      → Returns (io.buffer_cache_write s source st) tt (Shows (update view s source))
