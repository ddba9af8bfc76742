-- ===== src/A3/Tests/Files.antt =====
-- The inodes of a3/fs/inode.c and the free map over a buffer cache on a disk of four sectors.
use comp.Prelude.{
  ℕ, zero, suc, ◌+◌, ◌<◌, ◌≡◌, ◌⊎◌, inl, inr, refl, false, Option, none, some, List, [], ◌∷◌, arith,
  length, get_elem?, get_or, set, replicate, ltb, if◌then◌else◌, not, ◌==◌, get_elem?-set_self,
  get_elem?-set_ne, lt→ltb,
}
use comp.Prelude.Windows.{window}
use comp.Prelude.Run.{Run, done, Returns}
use comp.A3.Bytes.{Bytes}
use comp.A3.Sectors.Cached.{cached, cached-IsSectors}
use comp.A3.Cache.{Device, Cache, buffer_cache_size, buffer_cache_init}
use comp.A3.Cache.Slots.{lt_of_get?, IsDevice, Shows}
use comp.A3.Cache.Close.{buffer_cache_init-Shows}
use comp.A3.Inode.{InodeDisk, Inode, encode_inode, decode_inode, inode_read_at, index_to_sector}
use comp.A3.Inode.Encoding.{IsPacked}
use comp.A3.Inode.Layout.{HasMap, IsLayout, byte_at, sector_of, sector_count}
use comp.A3.Inode.Listing.{get_inode_data_sectors-index_to_sector}
use comp.A3.Inode.Read.{in_reach}
use comp.A3.Inode.Release.{get_inode_data_sectors}
use comp.A3.FreeMap.{Bitmaps, FreeMap, free_map_allocate}
use comp.A3.FreeMap.Stored.{IsMapFile, KeepsFile, free_map_allocate-IsStored}
use comp.Prelude.Cells.{deref}
use comp.Prelude.Text.{Text, codes}
use comp.A3.OpenInodes.{Table, inode_ops}
use comp.A3.Files.{Fs}
use comp.A3.Directory.{lookup, free_slot}
use comp.A3.Directory.Slots.{Places, free_slot-inode_read_at}
use comp.A3.Directory.Entries.{Finds}
use comp.A3.Directory.OnDisk.{IsOpen, inode_ops-IsFile, lookup-inode_read_at}
use comp.A3.FileSys.Tools.{hidden_range}
use comp.A3.FileSys.Hidden.{IsRange, hidden_range-IsRange}
use comp.A3.Inode.Reserve.{inode_reserve}
use comp.A3.Inode.Growth.{IsSpace, IsReserved, inode_reserve-IsReserved}
use comp.A3.FreeMap.Reopened.{HasMapFile, free_map_open-bits}
use comp.A3.FreeMap.{free_map_open}
use comp.Prelude.{Bool}
use comp.A3.Sectors.{Sectors}
use comp.A3.Inode.Within.{Overwrites, inode_read_at-window, inode_read_at-inode_write_at}

-- A disk is the list of its sectors.
abbrev disk_device : Device (List Bytes) Bytes
disk_device = record {
  block_read = λ i d. get_elem? d i;
  block_write = λ i b d. if ltb i (length d) then some (set d i b) else none;
}

disk_device-IsDevice : IsDevice disk_device
disk_device-IsDevice = record {
  written = λ i b c d has. (
    set d i b,
    rw (lt→ltb i (length d) (lt_of_get? d i has)) refl,
    get_elem?-set_self d i b (lt_of_get? d i has),
    λ j ne. get_elem?-set_ne d i j b ne,
  );
}

-- A file of 600 bytes in the sectors 2 and 3.
abbrev two_sectors : InodeDisk
two_sectors = record {
  direct_blocks = 2 ∷ 3 ∷ replicate 121 0;
  indirect_block = 0;
  doubly_indirect_block = 0;
  is_dir = false;
  length_bytes = 600;
  magic = 1229868868;
}

abbrev disk : List Bytes
disk = encode_inode two_sectors ∷ [] ∷ replicate 512 65 ∷ replicate 512 66 ∷ []

abbrev blank : Cache (List Bytes) Bytes
blank = record {
  entries =
      replicate buffer_cache_size
        (record { occupied = false; disk_sector = 0; buffer = []; dirty = false; access = false });
  clock = 0;
  disk = disk;
}

abbrev view : ℕ → Option Bytes
view s = get_elem? disk s

fresh-Shows : Shows disk_device view (buffer_cache_init blank)
fresh-Shows = buffer_cache_init-Shows disk_device blank refl (omega arith)

two_sectors-HasMap : HasMap view two_sectors (sector_count two_sectors)
unfolding comp.A3.Inode.bytes_to_sectors
two_sectors-HasMap = record {
  single = λ h. absurd (omega arith);
  double = λ h. absurd (omega arith);
  second = λ i ge h top. absurd (omega arith);
}

two_count : sector_count two_sectors ≡ 2
unfolding comp.A3.Inode.bytes_to_sectors
two_count = refl

sector_cases :
    (i : ℕ)
    → i < sector_count two_sectors
    → ((i ≡ 0) × (sector_of view two_sectors i ≡ 2))
      ⊎ ((i ≡ 1) × (sector_of view two_sectors i ≡ 3))
unfolding sector_of comp.A3.Inode.bytes_to_sectors
sector_cases zero h = inl (refl, refl)
sector_cases (suc zero) h = inr (refl, refl)
sector_cases (suc (suc i)) h = absurd (omega arith)

two_sectors-IsLayout : IsLayout view two_sectors
unfolding comp.A3.Inode.bytes_to_sectors
two_sectors-IsLayout = record {
  map = two_sectors-HasMap;
  readable = λ i h. elim (sector_cases i h) [ inl (z, e) ↦ rw e refl | inr (z, e) ↦ rw e refl ];
  sized = λ i h. elim (sector_cases i h) [ inl (z, e) ↦ rw e refl | inr (z, e) ↦ rw e refl ];
  apart = λ i j h g ne. elim (sector_cases i h) [
    | inl (z, e) ↦ elim (sector_cases j g) [
      | inl (y, f) ↦ absurd (omega arith)
      | inr (y, f) ↦ omega arith
    ]
    | inr (z, e) ↦ elim (sector_cases j g) [
      | inl (y, f) ↦ omega arith
      | inr (y, f) ↦ absurd (omega arith)
    ]
  ];
  off_single = λ i h top. absurd (omega arith);
  off_double = λ i h top. absurd (omega arith);
  off_second = λ i j h ge g top. absurd (omega arith);
}

abbrev open_file : Inode
open_file = record {
  sector = 1;
  open_cnt = 1;
  removed = false;
  deny_write_cnt = 0;
  body = two_sectors;
}

-- The same file, as the inode in sector 0.
abbrev open_zero : Inode
open_zero = record open_file { sector = 0 }

inode_read_at-window_example :
    Returns
      (inode_read_at (cached disk_device) two_sectors 10 508 (buffer_cache_init blank))
      (10, window (byte_at view two_sectors) 508 10)
      (Shows disk_device view)
unfolding in_reach
inode_read_at-window_example =
    inode_read_at-window (cached disk_device) (cached-IsSectors disk_device disk_device-IsDevice)
      view two_sectors 10 508 (buffer_cache_init blank) two_sectors-IsLayout fresh-Shows

-- No sector is free.
abbrev none_free : {St : Type 0} → St → Run St (Option ℕ)
none_free st = done none st

inode_read_at-inode_write_at_example :
    Overwrites
      (cached disk_device)
      (cached-IsSectors disk_device disk_device-IsDevice)
      none_free
      view
      open_file
      (1 ∷ 2 ∷ 3 ∷ [])
      510
      (buffer_cache_init blank)
      (λ st'.
        (st'' : Cache (List Bytes) Bytes) × (inode_read_at
            (cached disk_device)
            two_sectors
            3
            510
            st'
          ≡ done (3, 1 ∷ 2 ∷ 3 ∷ []) st''))
unfolding sector_of
inode_read_at-inode_write_at_example =
    inode_read_at-inode_write_at (cached disk_device)
      (cached-IsSectors disk_device disk_device-IsDevice) none_free view open_file (1 ∷ 2 ∷ 3 ∷ [])
      510 (buffer_cache_init blank) two_sectors-IsLayout fresh-Shows refl (omega arith)
      (omega arith) (omega arith)

get_inode_data_sectors-index_to_sector_example :
    (sectors : List ℕ) × (length sectors ≡ sector_count two_sectors)
    × Returns
        (get_inode_data_sectors (cached disk_device) two_sectors (buffer_cache_init blank))
        sectors
        (Shows disk_device view)
    × ((i : ℕ) (st' : Cache (List Bytes) Bytes)
        → i < sector_count two_sectors
        → Shows disk_device view st'
        → Returns
            (index_to_sector (cached disk_device) two_sectors i st')
            (get_or sectors i 0)
            (Shows disk_device view))
get_inode_data_sectors-index_to_sector_example =
    get_inode_data_sectors-index_to_sector (cached disk_device)
      (cached-IsSectors disk_device disk_device-IsDevice) view two_sectors (buffer_cache_init blank)
      refl two_sectors-HasMap (let e = two_count in omega (arith, e)) fresh-Shows

two_sectors-IsPacked : IsPacked two_sectors
two_sectors-IsPacked = record {
  direct = omega arith;
  count = refl;
  indirect = omega arith;
  doubly = omega arith;
  size = omega arith;
  number = omega arith;
}

-- A bitmap of one byte for each sector.
abbrev first_free : ℕ → List ℕ → Option (ℕ × List ℕ)
first_free i [] = none
first_free i (zero ∷ r) = some (i, 1 ∷ r)
first_free i (suc b ∷ r) = elim (first_free (i + 1) r) [
  | none ↦ none
  | some (k, r') ↦ some (k, suc b ∷ r')
]

abbrev byte_maps : Bitmaps (List ℕ)
byte_maps = record {
  scan_and_flip = λ b. first_free 0 b;
  all = λ i b. not (get_or b i 0 == 0);
  set = λ i v b. set b i (if v then 1 else 0);
  bytes = λ b. b;
  create = λ n. replicate n 0;
  of_bytes = λ b. b;
}

abbrev map_of_four : FreeMap (List ℕ) (Cache (List Bytes) Bytes)
map_of_four = record {
  bits = 1 ∷ 1 ∷ 1 ∷ 0 ∷ [];
  map_file = some open_file;
  under = buffer_cache_init blank;
}

map_of_four-IsMapFile :
    IsMapFile byte_maps
      (cached disk_device)
      (cached-IsSectors disk_device disk_device-IsDevice)
      view
      map_of_four
      open_file
      4
unfolding sector_of
map_of_four-IsMapFile = record {
  file = refl;
  layout = two_sectors-IsLayout;
  shows = fresh-Shows;
  allowed = refl;
  some_bits = omega arith;
  room = omega arith;
  real = omega arith;
}

free_map_allocate-IsStored_example :
    Returns (free_map_allocate byte_maps (cached disk_device) 1 map_of_four) (some 3) (
      KeepsFile byte_maps
        (cached disk_device)
        (cached-IsSectors disk_device disk_device-IsDevice)
        view
        (1 ∷ 1 ∷ 1 ∷ 1 ∷ [])
        open_file)
free_map_allocate-IsStored_example =
    free_map_allocate-IsStored byte_maps (cached disk_device)
      (cached-IsSectors disk_device disk_device-IsDevice) 0 3 (1 ∷ 1 ∷ 1 ∷ 1 ∷ []) view map_of_four
      open_file map_of_four-IsMapFile refl refl

abbrev keep : {St : Type 0} → ℕ → St → Run St (Unit {0})
keep s st = done tt st

-- The file of 600 bytes is open at the address 7.
abbrev open_table : Fs (Table (Cache (List Bytes) Bytes))
open_table = record {
  files = [];
  dirs = [];
  fresh = 8;
  file_table = [];
  cwd = none;
  under = record { inodes = (7, open_file) ∷ []; fresh = 8; under = buffer_cache_init blank };
}

lookup-inode_read_at_example :
    Finds
      (inode_ops (cached disk_device) none_free keep)
      7
      600
      (byte_at view two_sectors)
      (IsOpen
        (cached disk_device)
        (cached-IsSectors disk_device disk_device-IsDevice)
        none_free
        keep
        view
        7
        open_file)
      (inode_ops-IsFile
        (cached disk_device)
        (cached-IsSectors disk_device disk_device-IsDevice)
        none_free
        keep
        view
        7
        open_file
        two_sectors-IsLayout)
      1
      (codes "AAA")
      open_table
      (lookup (inode_ops (cached disk_device) none_free keep) 7 (codes "AAA") open_table)
unfolding deref
lookup-inode_read_at_example =
    lookup-inode_read_at (cached disk_device) (cached-IsSectors disk_device disk_device-IsDevice)
      none_free keep view 7 open_file (codes "AAA") open_table two_sectors-IsLayout (omega arith)
      (fresh-Shows, refl)

free_slot-inode_read_at_example :
    Places
      (inode_ops (cached disk_device) none_free keep)
      7
      600
      (byte_at view two_sectors)
      (IsOpen
        (cached disk_device)
        (cached-IsSectors disk_device disk_device-IsDevice)
        none_free
        keep
        view
        7
        open_file)
      (inode_ops-IsFile
        (cached disk_device)
        (cached-IsSectors disk_device disk_device-IsDevice)
        none_free
        keep
        view
        7
        open_file
        two_sectors-IsLayout)
      0
      open_table
      (free_slot (inode_ops (cached disk_device) none_free keep) 601 7 0 open_table)
unfolding deref
free_slot-inode_read_at_example =
    free_slot-inode_read_at (cached disk_device) (cached-IsSectors disk_device disk_device-IsDevice)
      none_free keep view 7 open_file open_table two_sectors-IsLayout (fresh-Shows, refl)

-- The longest name that fits, 30 bytes.
abbrev longest : Text
longest = replicate 30 b'a'

hidden_range-IsRange_example :
    IsRange 2 (7 ∷ 7 ∷ 0 ∷ 5 ∷ 0 ∷ 6 ∷ 0 ∷ []) (hidden_range 2 (7 ∷ 7 ∷ 0 ∷ 5 ∷ 0 ∷ 6 ∷ 0 ∷ []))
hidden_range-IsRange_example = hidden_range-IsRange 2 (7 ∷ 7 ∷ 0 ∷ 5 ∷ 0 ∷ 6 ∷ 0 ∷ [])

-- The file of two sectors has the bitmap with four bytes 65.
stored_map :
    HasMapFile byte_maps
      (cached disk_device)
      (cached-IsSectors disk_device disk_device-IsDevice)
      view
      two_sectors
      (65 ∷ 65 ∷ 65 ∷ 65 ∷ [])
unfolding byte_at sector_of
stored_map = record {
  inode_sector = refl;
  packed = two_sectors-IsPacked;
  layout = two_sectors-IsLayout;
  room = omega arith;
  stored = refl;
}

free_map_open-bits_example :
    Returns (free_map_open byte_maps (cached disk_device) map_of_four) tt (λ m'.
      (m'.bits ≡ 65 ∷ 65 ∷ 65 ∷ 65 ∷ [])
      × (m'.map_file ≡ some open_zero)
      × Shows disk_device view m'.under)
free_map_open-bits_example =
    free_map_open-bits byte_maps (cached disk_device)
      (cached-IsSectors disk_device disk_device-IsDevice) view two_sectors (65 ∷ 65 ∷ 65 ∷ 65 ∷ [])
      map_of_four stored_map fresh-Shows refl refl

-- A free map that gives one sector after the other.
abbrev next_sector : ℕ → Run ℕ (Option ℕ)
next_sector n = done (some (suc n)) (suc n)

abbrev any_sector : Sectors ℕ
any_sector = record {
  buffer_cache_read = λ s n. done [] n;
  buffer_cache_write = λ s b n. done tt n;
}

next_sector-IsSpace : IsSpace any_sector next_sector (λ s. Unit {0}) (λ n. Unit {0})
next_sector-IsSpace = record {
  allocates = λ n u. (some (suc n), (omega arith, tt), (suc n, refl, tt));
  writes = λ s b n u w. (n, refl, tt);
}

inode_reserve-IsReserved_example :
    (r : Bool × List ℕ) × IsReserved 3 two_sectors.direct_blocks r.1 r.0
    × Returns
        (inode_reserve any_sector next_sector two_sectors 1100 10)
        (r.0, record two_sectors { direct_blocks = r.1 })
        (λ n. Unit {0})
unfolding comp.A3.Inode.bytes_to_sectors
inode_reserve-IsReserved_example =
    inode_reserve-IsReserved any_sector next_sector next_sector-IsSpace two_sectors 1100 10 refl
      (omega arith) tt
