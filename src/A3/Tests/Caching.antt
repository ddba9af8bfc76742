-- ===== src/A3/Tests/Caching.antt =====
-- The buffer cache of a3/fs/cache.c over a disk of three sectors.
use comp.Prelude.{
  ℕ, ◌≡◌, refl, false, none, some, List, [], ◌∷◌, arith, length, get_elem?, set, replicate, ltb,
  if◌then◌else◌, get_elem?-set_self, get_elem?-set_ne, lt→ltb,
}
use comp.Prelude.Run.{done}
use comp.A3.Cache.{
  Device, Cache, buffer_cache_size, buffer_cache_init, buffer_cache_close, buffer_cache_evict,
  buffer_cache_read, buffer_cache_write,
}
use comp.A3.Cache.Slots.{lt_of_get?, IsDevice, Shows}
use comp.A3.Cache.Steps.{update}
use comp.A3.Cache.Clock.{Evicted, buffer_cache_evict-Evicted}
use comp.A3.Cache.Refines.{buffer_cache_read-Shows, buffer_cache_write-Shows}
use comp.A3.Cache.Close.{buffer_cache_init-Shows, buffer_cache_close-Shows}

-- A disk is the list of its sectors, of one number each.
abbrev list_disk : Device (List ℕ) ℕ
list_disk = record {
  block_read = λ i d. get_elem? d i;
  block_write = λ i b d. if ltb i (length d) then some (set d i b) else none;
}

list_disk-IsDevice : IsDevice list_disk
list_disk-IsDevice = record {
  written = λ i b c d has. (
    set d i b,
    rw (lt→ltb i (length d) (lt_of_get? d i has)) refl,
    get_elem?-set_self d i b (lt_of_get? d i has),
    λ j ne. get_elem?-set_ne d i j b ne,
  );
}

abbrev disk : List ℕ
disk = 10 ∷ 20 ∷ 30 ∷ []

abbrev zeroed : Cache (List ℕ) ℕ
zeroed = record {
  entries =
      replicate buffer_cache_size
        (record { occupied = false; disk_sector = 0; buffer = 0; dirty = false; access = false });
  clock = 0;
  disk = disk;
}

fresh-Shows : Shows list_disk (λ s. get_elem? disk s) (buffer_cache_init zeroed)
fresh-Shows = buffer_cache_init-Shows list_disk zeroed refl (omega arith)

buffer_cache_init-Shows_example : Shows list_disk (λ s. get_elem? disk s) (buffer_cache_init zeroed)
buffer_cache_init-Shows_example = buffer_cache_init-Shows list_disk zeroed refl (omega arith)

buffer_cache_evict-Evicted_example :
    (i : ℕ) × (c : Cache (List ℕ) ℕ) × (buffer_cache_evict list_disk (buffer_cache_init zeroed)
      ≡ done i c)
    × Evicted list_disk (λ s. get_elem? disk s) (buffer_cache_init zeroed) i c
buffer_cache_evict-Evicted_example =
    buffer_cache_evict-Evicted list_disk list_disk-IsDevice (buffer_cache_init zeroed) fresh-Shows

buffer_cache_read-Shows_example :
    (c : Cache (List ℕ) ℕ) × (buffer_cache_read list_disk 1 (buffer_cache_init zeroed) ≡ done 20 c)
    × Shows list_disk (λ s. get_elem? disk s) c
buffer_cache_read-Shows_example =
    buffer_cache_read-Shows list_disk list_disk-IsDevice 1 fresh-Shows refl

buffer_cache_write-Shows_example :
    (c : Cache (List ℕ) ℕ) × (buffer_cache_write list_disk 1 99 (buffer_cache_init zeroed)
      ≡ done tt c)
    × Shows list_disk (update (λ s. get_elem? disk s) 1 99) c
buffer_cache_write-Shows_example =
    buffer_cache_write-Shows list_disk list_disk-IsDevice 1 99 fresh-Shows refl

-- The cache after one write.
abbrev written :
    (c : Cache (List ℕ) ℕ) × (buffer_cache_write list_disk 1 99 (buffer_cache_init zeroed)
      ≡ done tt c)
    × Shows list_disk (update (λ s. get_elem? disk s) 1 99) c
written = buffer_cache_write-Shows list_disk list_disk-IsDevice 1 99 fresh-Shows refl

buffer_cache_close-Shows_example :
    (c : Cache (List ℕ) ℕ) × (buffer_cache_close list_disk written.0 ≡ done tt c)
    × Shows list_disk (update (λ s. get_elem? disk s) 1 99) c
    × ((s : ℕ) → get_elem? c.disk s ≡ update (λ s. get_elem? disk s) 1 99 s)
buffer_cache_close-Shows_example = buffer_cache_close-Shows list_disk list_disk-IsDevice written.2
