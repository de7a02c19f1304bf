-- ===== src/Guc/Gucdef.antt =====
-- The tables that build.rs generates from guc/gucdef.yaml, in the order of that file, and the two
-- hooks of guc.rs. The value of `GucIdx` is the place of a variable among those of its type.
use kui_ba_db.Base.{
  ℕ, ◌*◌, List, [], ◌∷◌, Bool, true, false, Option, none, some, map, eq_bytes, if◌then◌else◌,
}
use kui_ba_db.Base.Int.{ℤ, pos}
use kui_ba_db.Base.Text.{codes}
use kui_ba_db.Base.Assoc.{Assoc}
use kui_ba_db.Common.{Float}
use kui_ba_db.Guc.{
  Str, Context, report, GucIdx, LevelFilter, GucVals, GucState, World, Hooked, Guc, GucTables,
}

-- The levels that `log_min_messages` may have: the filter to load and the maximal level.
unfoldable pub level_of : Str → Option (Str × LevelFilter)
level_of val =
    if eq_bytes val (codes "OFF")
    then some (codes "off", LevelFilter.off)
    else if eq_bytes val (codes "ERROR")
    then some (codes "error", LevelFilter.error)
    else if eq_bytes val (codes "WARNING")
    then some (codes "warn", LevelFilter.warn)
    else if eq_bytes val (codes "INFO")
    then some (codes "info", LevelFilter.info)
    else if eq_bytes val (codes "DEBUG1")
    then some (codes "debug", LevelFilter.debug)
    else if eq_bytes val (codes "DEBUG2")
    then some (codes "trace", LevelFilter.trace)
    else none

-- `reload` says whether tracing accepts a new filter.
module _ (R : Type 0) (reload : Str → Bool) where
  unfoldable pub reload_level : Str → World R → Option (Str × LevelFilter) → Hooked R Str
  reload_level val w none = record { val = val; world = w; accepted = false }
  reload_level val w (some (level, lvlfilter)) =
      if reload level
      then record {
        val = val;
        world = record w { log = record { filter = level; max_level = lvlfilter } };
        accepted = true;
      }
      else record { val = val; world = w; accepted = false }

  unfoldable pub log_min_messages_preassign : Str → World R → Hooked R Str
  log_min_messages_preassign val w = reload_level val w (level_of val)

  unfoldable pub search_path_preassign : Str → World R → Hooked R Str
  search_path_preassign val w = record {
    val = val;
    world = record w { gucstate = record (w.gucstate) { base_search_path_valid = false } };
    accepted = true;
  }

  abbrev plain : {V : Type 0} → Context → ℕ → Guc R V
  plain context flags = record {
    gen = record { context = context; flags = flags; show = none };
    preassign = none;
  }

  abbrev hooked : {V : Type 0} → Context → (V → World R → Hooked R V) → Guc R V
  hooked context hook = record {
    gen = record { context = context; flags = 0; show = none };
    preassign = some hook;
  }

  abbrev pub bool_gucs : List (Guc R Bool)
  bool_gucs = plain Context.internal report ∷ plain Context.kuibadb 0 ∷ []

  abbrev pub int_gucs : List (Guc R ℤ)
  int_gucs =
      plain Context.sig_hup 0
      ∷ plain Context.kuibadb 0
      ∷ plain Context.sig_hup 0
      ∷ plain Context.kuibadb 0
      ∷ plain Context.kuibadb 0
      ∷ plain Context.kuibadb 0
      ∷ plain Context.kuibadb 0
      ∷ plain Context.sig_hup 0
      ∷ plain Context.sig_hup 0
      ∷ plain Context.kuibadb 0
      ∷ plain Context.sig_hup 0
      ∷ plain Context.kuibadb 0
      ∷ plain Context.kuibadb 0
      ∷ plain Context.user_set 0
      ∷ plain Context.kuibadb 0
      ∷ plain Context.kuibadb 0
      ∷ plain Context.kuibadb 0
      ∷ plain Context.kuibadb 0
      ∷ plain Context.kuibadb 0
      ∷ plain Context.kuibadb 0
      ∷ plain Context.kuibadb 0
      ∷ plain Context.kuibadb 0
      ∷ plain Context.kuibadb 0
      ∷ plain Context.kuibadb 0
      ∷ []

  abbrev pub real_gucs : List (Guc R R)
  real_gucs = plain Context.user_set 0 ∷ []

  abbrev pub str_gucs : List (Guc R Str)
  str_gucs =
      hooked Context.sig_hup log_min_messages_preassign
      ∷ plain Context.internal report
      ∷ plain Context.internal report
      ∷ plain Context.internal report
      ∷ hooked Context.user_set search_path_preassign
      ∷ []

abbrev pub nameinfo_map : Assoc GucIdx
nameinfo_map =
    (codes "is_superuser", GucIdx.bool_idx 0)
    ∷ (codes "enable_cs_wal", GucIdx.bool_idx 1)
    ∷ (codes "max_connections", GucIdx.int_idx 0)
    ∷ (codes "port", GucIdx.int_idx 1)
    ∷ (codes "clog_l1cache_size", GucIdx.int_idx 2)
    ∷ (codes "clog_l2cache_size", GucIdx.int_idx 3)
    ∷ (codes "wal_buff_max_size", GucIdx.int_idx 4)
    ∷ (codes "wal_file_max_size", GucIdx.int_idx 5)
    ∷ (codes "xid_stop_limit", GucIdx.int_idx 6)
    ∷ (codes "mvcc_blk_rows", GucIdx.int_idx 7)
    ∷ (codes "data_blk_rows", GucIdx.int_idx 8)
    ∷ (codes "mvcc_buf_cap", GucIdx.int_idx 9)
    ∷ (codes "max_files_per_process", GucIdx.int_idx 10)
    ∷ (codes "table_sv_cap", GucIdx.int_idx 11)
    ∷ (codes "table_mvcc_cap", GucIdx.int_idx 12)
    ∷ (codes "batch_size", GucIdx.int_idx 13)
    ∷ (codes "tokio_max_blocking_threads", GucIdx.int_idx 14)
    ∷ (codes "tokio_thread_keep_alive", GucIdx.int_idx 15)
    ∷ (codes "tokio_thread_stack_size", GucIdx.int_idx 16)
    ∷ (codes "tokio_worker_threads", GucIdx.int_idx 17)
    ∷ (codes "iopoll_uring_num", GucIdx.int_idx 18)
    ∷ (codes "non_iopoll_uring_num", GucIdx.int_idx 19)
    ∷ (codes "iopoll_uring_depth", GucIdx.int_idx 20)
    ∷ (codes "non_iopoll_uring_depth", GucIdx.int_idx 21)
    ∷ (codes "iopoll_uring_sq_thread_idle", GucIdx.int_idx 22)
    ∷ (codes "non_iopoll_uring_sq_thread_idle", GucIdx.int_idx 23)
    ∷ (codes "seq_page_cost", GucIdx.real_idx 0)
    ∷ (codes "log_min_messages", GucIdx.str_idx 0)
    ∷ (codes "server_version", GucIdx.str_idx 1)
    ∷ (codes "server_encoding", GucIdx.str_idx 2)
    ∷ (codes "client_encoding", GucIdx.str_idx 3)
    ∷ (codes "search_path", GucIdx.str_idx 4)
    ∷ []

abbrev pub port : ℕ
port = 1

abbrev pub tokio_max_blocking_threads : ℕ
tokio_max_blocking_threads = 14

abbrev pub tokio_thread_keep_alive : ℕ
tokio_thread_keep_alive = 15

abbrev pub tokio_thread_stack_size : ℕ
tokio_thread_stack_size = 16

abbrev pub tokio_worker_threads : ℕ
tokio_worker_threads = 17

abbrev pub iopoll_uring_num : ℕ
iopoll_uring_num = 18

abbrev pub non_iopoll_uring_num : ℕ
non_iopoll_uring_num = 19

abbrev pub iopoll_uring_depth : ℕ
iopoll_uring_depth = 20

abbrev pub non_iopoll_uring_depth : ℕ
non_iopoll_uring_depth = 21

abbrev pub iopoll_uring_sq_thread_idle : ℕ
iopoll_uring_sq_thread_idle = 22

abbrev pub non_iopoll_uring_sq_thread_idle : ℕ
non_iopoll_uring_sq_thread_idle = 23

abbrev pub log_min_messages : ℕ
log_min_messages = 0

abbrev pub server_version : ℕ
server_version = 1

abbrev pub server_encoding : ℕ
server_encoding = 2

abbrev pub client_encoding : ℕ
client_encoding = 3

abbrev pub search_path : ℕ
search_path = 4

abbrev pub is_superuser : ℕ
is_superuser = 0

module _ (f : Float) where
  -- `GucVals::default` and `GucState::default`: the boot values.
  abbrev pub default_vals : GucVals f.Real
  default_vals = record {
    bool_vals = true ∷ false ∷ [];
    str_vals =
        codes "DEBUG2"
        ∷ codes "0.0.1"
        ∷ codes "UTF8"
        ∷ codes "UTF8"
        ∷ codes "public,kb_catalog"
        ∷ [];
    int_vals = map pos (
        16
        ∷ 1218
        ∷ 1024
        ∷ 128
        ∷ 33554432
        ∷ 1073741824
        ∷ 2000000000
        ∷ 65536
        ∷ 65536
        ∷ 16
        ∷ 1000
        ∷ 1024
        ∷ 1024
        ∷ 1024
        ∷ 512
        ∷ 16
        ∷ (2 * 1024 * 1024)
        ∷ 0
        ∷ 1
        ∷ 1
        ∷ 256
        ∷ 2048
        ∷ 1
        ∷ 1
        ∷ []);
    real_vals = f.of_i64 (pos 1) ∷ [];
  }

  abbrev pub default_state : GucState f.Real
  default_state = record { vals = default_vals; base_search_path_valid = false }

  abbrev pub tables : (Str → Bool) → GucTables f.Real
  tables reload = record {
    bool_gucs = bool_gucs f.Real reload;
    int_gucs = int_gucs f.Real reload;
    real_gucs = real_gucs f.Real reload;
    str_gucs = str_gucs f.Real reload;
    nameinfo_map = nameinfo_map;
  }
