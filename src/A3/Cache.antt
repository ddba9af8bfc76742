-- ===== src/A3/Cache.antt =====
-- The buffer cache of the file system, a3/fs/cache.c: write-back, with the clock algorithm.
-- `block_read` and `block_write` of a3/fs/block.c are a parameter.
pub mod Slots
pub mod Steps
pub mod Clock
pub mod Refines
pub mod Close
use comp.Prelude.{
  ℕ, zero, suc, ◌+◌, ◌%◌, Bool, true, false, not, ◌&&◌, Option, none, some, List, [], ◌∷◌, ◌==◌,
  if◌then◌else◌, get_elem?, set,
}
use comp.Prelude.Run.{Run, done, fault, out_of_fuel, and_then}

-- The block device: `none` where the access is past its end and the block layer panics.
pub record Device (D S : Type 0) : Type 0 where
  pub block_read : ℕ → D → Option S
  pub block_write : ℕ → S → D → Option D

-- `struct buffer_cache_entry_t`
pub record Entry (S : Type 0) : Type 0 where
  pub occupied : Bool
  pub disk_sector : ℕ
  pub buffer : S
  pub dirty : Bool
  pub access : Bool

-- The array `cache`, the static `clock` of `buffer_cache_evict`, and `fs_device`.
pub record Cache (D S : Type 0) : Type 0 where
  pub entries : List (Entry S)
  pub clock : ℕ
  pub disk : D

abbrev pub buffer_cache_size : ℕ
buffer_cache_size = 64

module _ {S : Type 0} where
  -- The loop of `buffer_cache_init`.
  unfoldable pub init_entries : List (Entry S) → List (Entry S)
  init_entries [] = []
  init_entries (e ∷ r) = record e { occupied = false; dirty = false } ∷ init_entries r

  -- `buffer_cache_lookup` from index `i` on: the index of the entry, or `none` for `NULL`.
  unfoldable pub lookup : ℕ → ℕ → List (Entry S) → Option ℕ
  lookup sector i [] = none
  lookup sector i (e ∷ r) =
      let rest = lookup sector (i + 1) r in
      if e.occupied && (e.disk_sector == sector) then some i else rest

module _ {D S : Type 0} where
  unfoldable pub put : ℕ → Entry S → Cache D S → Cache D S
  put i e c = record c { entries = set c.entries i e }

  unfoldable pub buffer_cache_init : Cache D S → Cache D S
  buffer_cache_init c = record c { entries = init_entries c.entries }

  -- A second chance for the entry at the clock.
  unfoldable pub second_chance : Entry S → Cache D S → Cache D S
  second_chance e c = record c {
    entries = set c.entries c.clock (record e { access = false });
    clock = (c.clock + 1) % buffer_cache_size;
  }

module _ {D S : Type 0} (dev : Device D S) where
  open dev use {block_read, block_write}

  -- `buffer_cache_flush` of the entry `e` at index `i`, with the entry as it is left.
  unfoldable pub flush : ℕ → Entry S → Cache D S → Run (Cache D S) (Entry S)
  unfolding put
  flush i e c =
      if not e.occupied
      then fault
      else if e.dirty
      then elim (block_write e.disk_sector e.buffer c.disk) as (λ _. Run (Cache D S) (Entry S)) [
        | none ↦ fault
        | some d ↦
            done (record e { dirty = false })
              (put i (record e { dirty = false }) (record c { disk = d }))
      ]
      else done e c

  -- The rounds of the loop of `buffer_cache_close` from index `i` on.
  unfoldable pub close_from : ℕ → ℕ → Cache D S → Run (Cache D S) (Unit {0})
  unfolding flush
  close_from zero i c = done tt c
  close_from (suc n) i c = elim (get_elem? c.entries i) as (λ _. Run (Cache D S) (Unit {0})) [
    | none ↦ fault
    | some e ↦
        let skip = close_from n (i + 1) c in
        if not e.occupied then skip else and_then (flush i e c) (λ _ c'. close_from n (i + 1) c')
  ]

  unfoldable pub buffer_cache_close : Cache D S → Run (Cache D S) (Unit {0})
  unfolding close_from
  buffer_cache_close c = close_from buffer_cache_size 0 c

  -- `buffer_cache_evict` behind its loop.
  unfoldable pub vacate : ℕ → Entry S → Cache D S → Run (Cache D S) ℕ
  unfolding flush put
  vacate i e c =
      and_then (if e.dirty then flush i e c else done e c)
        (λ e' c'. done i (put i (record e' { occupied = false }) c'))

  -- The loop of `buffer_cache_evict`, and what follows it.
  unfoldable pub evict_loop : ℕ → Cache D S → Run (Cache D S) ℕ
  unfolding vacate second_chance
  evict_loop zero c = out_of_fuel
  evict_loop (suc fuel) c = elim (get_elem? c.entries c.clock) as (λ _. Run (Cache D S) ℕ) [
    | none ↦ fault
    | some e ↦
        let again = evict_loop fuel (second_chance e c) in
        if not e.occupied then done c.clock c else if e.access then again else vacate c.clock e c
  ]

  -- One round more than there are entries.
  unfoldable pub buffer_cache_evict : Cache D S → Run (Cache D S) ℕ
  unfolding evict_loop
  buffer_cache_evict c = evict_loop (suc buffer_cache_size) c

  -- The entry `i`, which must be free, filled with a sector of the disk.
  unfoldable pub fill : ℕ → ℕ → Cache D S → Run (Cache D S) ℕ
  unfolding put
  fill sector i c = elim (get_elem? c.entries i) as (λ _. Run (Cache D S) ℕ) [
    | none ↦ fault
    | some e ↦
        if e.occupied then fault else elim (block_read sector c.disk) as (λ _. Run (Cache D S) ℕ) [
          | none ↦ fault
          | some b ↦ done i (
              put i (record e { occupied = true; disk_sector = sector; dirty = false; buffer = b })
                c)
        ]
  ]

  -- The first part of `buffer_cache_read` and `buffer_cache_write`: the index of `slot`.
  unfoldable pub fetch_slot : ℕ → Cache D S → Run (Cache D S) ℕ
  unfolding lookup buffer_cache_evict fill
  fetch_slot sector c = elim (lookup sector 0 c.entries) as (λ _. Run (Cache D S) ℕ) [
    | some i ↦ done i c
    | none ↦ and_then (buffer_cache_evict c) (fill sector)
  ]

  -- The use of the slot `i` by `buffer_cache_read`.
  unfoldable pub read_slot : ℕ → Cache D S → Run (Cache D S) S
  unfolding put
  read_slot i c = elim (get_elem? c.entries i) as (λ _. Run (Cache D S) S) [
    | none ↦ fault
    | some e ↦ done e.buffer (put i (record e { access = true }) c)
  ]

  unfoldable pub write_slot : S → ℕ → Cache D S → Run (Cache D S) (Unit {0})
  unfolding put
  write_slot source i c = elim (get_elem? c.entries i) as (λ _. Run (Cache D S) (Unit {0})) [
    | none ↦ fault
    | some e ↦ done tt (put i (record e { access = true; dirty = true; buffer = source }) c)
  ]

  unfoldable pub buffer_cache_read : ℕ → Cache D S → Run (Cache D S) S
  unfolding fetch_slot read_slot
  buffer_cache_read sector c = and_then (fetch_slot sector c) read_slot

  unfoldable pub buffer_cache_write : ℕ → S → Cache D S → Run (Cache D S) (Unit {0})
  unfolding fetch_slot write_slot
  buffer_cache_write sector source c = and_then (fetch_slot sector c) (write_slot source)
