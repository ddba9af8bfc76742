-- ===== src/A3/Tests/Commands.antt =====
-- The commands of a3/interpreter.c and the open inodes of a3/fs/inode.c at concrete states.
use comp.Prelude.{ℕ, ◌≡◌, refl, true, false, Option, none, List, [], ◌∷◌, arith}
use comp.Prelude.Cells.{deref, IsApart}
use comp.Prelude.Int.{pos}
use comp.Prelude.Text.{Text, codes}
use comp.Prelude.Run.{Run, done, fault}
use comp.A3.Sectors.{Sectors}
use comp.A3.Inode.{Inode}
use comp.A3.OpenInodes.{
  Table, find_open, inode_open, inode_close, inode_remove, read_open, write_open,
}
use comp.A3.OpenInodes.Sharing.{inode_close-inode_open}
use comp.A3.Interpreter.{Commands, Session}
use comp.A3.Interpreter.Dispatch.{interpreter}
use comp.A3.Interpreter.Arity.{cat_command, word_of, count_of, interpreter-refused}

-- Commands that only print, on the list of what is printed.
abbrev printing : Commands (List Text)
printing = record {
  print_line = λ t s. t ∷ s;
  print_help = λ s. codes "help" ∷ s;
  mem_set_value = λ n v s. s;
  mem_get_value = λ n b s. [];
  reset_var_zone = λ s. s;
  copy_script = λ c s. s;
  remove_store = λ s. s;
  renew_store = λ s. s;
  atoi = λ t. pos 0;
  new_proc = λ t s. done (pos 0) s;
  run_proc_rr = λ s. done (pos 0) s;
  filesys_done = λ s. done tt s;
  fsutil_ls = λ s. done (pos 0) s;
  fsutil_cat = λ t s. done (pos 0) s;
  fsutil_rm = λ t s. done true s;
  fsutil_create = λ t n s. done true s;
  fsutil_write = λ t b s. done (pos 0) s;
  print_short_write = λ n m s. codes "short" ∷ s;
  print_file_length = λ n s. codes "length" ∷ s;
  fsutil_read = λ t n s. done (pos 0, []) s;
  fsutil_size = λ t s. done (pos 0) s;
  fsutil_seek = λ t n s. done (pos 0) s;
  fsutil_freespace = λ s. done tt s;
  copy_in = λ t s. done (pos 0) s;
  copy_out = λ t s. done (pos 0) s;
  find_file = λ t s. done tt s;
  fragmentation_degree = λ s. done tt s;
  defragment = λ s. done (pos 0) s;
  recover = λ n s. done tt s;
}

interpreter-refused_example :
    interpreter printing (codes "cat" ∷ []) (record { new_name_count = 1; under = [] })
    ≡ done
        (pos 4)
        (record { new_name_count = 1; under = codes "Bad command: too many tokens" ∷ [] })
unfolding word_of count_of comp.A3.Interpreter.Arity.refused
interpreter-refused_example =
    interpreter-refused printing cat_command [] (record { new_name_count = 1; under = [] })
      (omega arith)

-- No sector is there.
abbrev no_sectors : Sectors ℕ
no_sectors = record {
  buffer_cache_read = λ s n. done [] n;
  buffer_cache_write = λ s b n. done tt n;
}

abbrev shared : Inode
shared = record {
  sector = 1;
  open_cnt = 1;
  removed = false;
  deny_write_cnt = 0;
  body = record {
    direct_blocks = [];
    indirect_block = 0;
    doubly_indirect_block = 0;
    is_dir = true;
    length_bytes = 0;
    magic = 0;
  };
}

abbrev one_open : Table ℕ
one_open = record { inodes = (7, shared) ∷ []; fresh = 8; under = 0 }

abbrev none_free : ℕ → Run ℕ (Option ℕ)
none_free n = done none n

abbrev keep : ℕ → ℕ → Run ℕ (Unit {0})
keep s n = done tt n

inode_close-inode_open_example :
    (inode_open no_sectors none_free keep 1 one_open ≡ done 7 one_open)
    × (t' : Table ℕ) × (inode_close no_sectors none_free keep 7 one_open ≡ done tt t')
    × (read_open no_sectors none_free keep 7 4 (pos 0) t' ≡ fault)
    × (write_open no_sectors none_free keep 7 (1 ∷ []) (pos 0) t' ≡ fault)
    × (inode_remove 7 t' ≡ fault)
    × (inode_close no_sectors none_free keep 7 t' ≡ fault)
unfolding find_open deref IsApart
inode_close-inode_open_example =
    inode_close-inode_open no_sectors none_free keep 1 7 shared one_open 3 (1 ∷ []) (pos 0) refl
      refl refl refl (refl, tt)
