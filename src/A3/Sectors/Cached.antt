-- ===== src/A3/Sectors/Cached.antt =====
-- The buffer cache of a3/fs/cache.c, on a device that keeps what is written, is a store of sectors.
use comp.A3.Bytes.{Bytes}
use comp.A3.Sectors.{Sectors, IsSectors}
use comp.A3.Cache.{Device, Cache, buffer_cache_read, buffer_cache_write}
use comp.A3.Cache.Slots.{IsDevice, Shows}
use comp.A3.Cache.Refines.{buffer_cache_read-Shows, buffer_cache_write-Shows}

module _ {D : Type 0} (dev : Device D Bytes) where
  unfoldable pub cached : Sectors (Cache D Bytes)
  cached = record {
    buffer_cache_read = buffer_cache_read dev;
    buffer_cache_write = buffer_cache_write dev;
  }

  pub cached-IsSectors : IsDevice dev → IsSectors cached (Shows dev)
  unfolding cached
  cached-IsSectors ok = record {
    read_ok = λ view s b c v has. buffer_cache_read-Shows dev ok s v has;
    write_ok = λ view s source b c v has. buffer_cache_write-Shows dev ok s source v has;
  }
