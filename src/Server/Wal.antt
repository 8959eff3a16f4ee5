-- ===== src/Server/Wal.antt =====
-- src/server/wal.rs: the write-ahead log, a directory of files wal_0, wal_1, … of messages.
-- A disk is the directory: its log files by their indices, each with its bytes; opening makes the file's
-- bytes and the memory map one. What bincode does is the parameter `codec`; `fault` tells which files
-- the operating system fails to open. That it opens a new file and then fails to size or map it, which
-- leaves the file there, is not modelled.
pub mod Reader
pub mod File
pub mod Disk
pub mod Write
pub mod Rotate
pub mod Resume
pub mod Short
pub mod Cells
pub mod Replay
mod Tests
use cixrs.Base.{
  ℕ, zero, suc, ◌+◌, ◌-◌, leb, ltb, ◌==◌, Bool, true, false, Option, none, some, List, [], ◌∷◌,
  ◌++◌, length, take, replicate, get_elem?, map, Result, success, failure, if◌then◌else◌,
}
use cixrs.Run.{Run, Cmd, ok, panic, out_of_fuel, pure, get_state, put_state, panics, ◌>>=◌, ◌>>◌}
use cixrs.Server.Messages.{EngineMessage, null_message}
use cixrs.Server.OpenOrders.{drop}

-- What the log calls of bincode. The argument of `serialize` is the bound on the bytes.
pub record Codec : Type 0 where
  pub serialize : EngineMessage → ℕ → Result (Unit {0}) (List ℕ)
  pub deserialize : List ℕ → Result (Unit {0}) EngineMessage
  pub serialized_size : EngineMessage → ℕ

-- the strings of the log's errors
pub data WalError : Type 0 where
  failed_to_create : WalError
  failed_to_open : WalError
  no_directory : WalError
  invalid_read : ℕ → WalError
  files_too_small : WalError
  write_failed : WalError

abbrev pub Disk : Type 0
Disk = List (ℕ × List ℕ)

unfoldable pub contents : ℕ → Disk → Option (List ℕ)
contents i [] = none
contents i (f ∷ fs) = if i == f.0 then some f.1 else contents i fs

unfoldable pub store : ℕ → List ℕ → Disk → Disk
store i bytes [] = []
store i bytes (f ∷ fs) = if i == f.0 then (i, bytes) ∷ fs else f ∷ store i bytes fs

pub data WriteResult : Type 0 where
  written : WriteResult
  log_full : WriteResult
  write_error : WalError → WriteResult

-- `file` is the index of the open file.
pub record WalFile : Type 0 where
  pub file : ℕ
  pub cursor : ℕ
  pub capacity : ℕ

-- the write of a slice, inside the bounds
abbrev pub splice : List ℕ → ℕ → List ℕ → List ℕ
splice bytes at new = take at bytes ++ (new ++ drop (at + length new) bytes)

pub record Wal : Type 0 where
  pub index : ℕ
  pub file_size : ℕ
  pub wal : WalFile

abbrev pub insert_sorted : ℕ → List ℕ → List ℕ
insert_sorted x [] = x ∷ []
insert_sorted x (y ∷ ys) = if leb x y then x ∷ y ∷ ys else y ∷ insert_sorted x ys

abbrev pub sort : List ℕ → List ℕ
sort [] = []
sort (x ∷ xs) = insert_sorted x (sort xs)

-- Wal::get_all_files
unfoldable pub get_all_files : Disk → List ℕ
get_all_files disk = sort (map (λ (f : ℕ × List ℕ). f.0) disk)

-- enough turns for next_file: each but the last finds another file
abbrev pub turns : Disk → ℕ
turns disk = length disk + 1

abbrev pub last_file : List ℕ → Option ℕ
last_file [] = none
last_file (i ∷ is) = elim (last_file is) [ none ↦ some i | some j ↦ some j ]

abbrev pub is_null_message : EngineMessage → Bool
is_null_message null_message = true
is_null_message _ = false

module _ (codec : Codec) (fault : ℕ → Option WalError) where
  -- WalFile::open_impl for an existing file
  unfoldable pub open_file : ℕ → Cmd Disk (Result WalError WalFile)
  unfolding contents
  open_file i disk = elim (contents i disk) [
    | none ↦ ok (failure failed_to_create) disk
    | some bytes ↦ (elim (fault i) [
      | some e ↦ ok (failure e) disk
      | none ↦ ok (success (record { file = i; cursor = 0; capacity = length bytes })) disk
    ])
  ]

  -- WalFile::open_impl for a new file of `size` zeros
  unfoldable pub create : ℕ → ℕ → Cmd Disk (Result WalError WalFile)
  unfolding contents
  create i size disk = elim (contents i disk) [
    | some bytes ↦ ok (failure failed_to_create) disk
    | none ↦ (elim (fault i) [
      | some e ↦ ok (failure e) disk
      | none ↦
          ok (success (record { file = i; cursor = 0; capacity = size }))
            ((i, replicate size 0) ∷ disk)
    ])
  ]

  unfoldable pub write_bytes : WalFile → List ℕ → List ℕ → Cmd Disk (WalFile × WriteResult)
  unfolding store
  write_bytes w bytes new =
      if leb (w.cursor + length new) (length bytes)
      then (λ disk.
          ok (record w { cursor = w.cursor + length new }, written)
            (store w.file (splice bytes w.cursor new) disk))
      else panics

  -- WalFile::write_entry. The pattern `SizeLimit` binds a variable, so every error is a full log.
  unfoldable pub write_to_file : WalFile → EngineMessage → Cmd Disk (WalFile × WriteResult)
  unfolding contents write_bytes
  write_to_file w entry disk = elim (codec.serialize entry (w.capacity - w.cursor)) [
    | failure e ↦ ok (w, log_full) disk
    | success new ↦ (elim (contents w.file disk) [
      | none ↦ panic
      | some bytes ↦ write_bytes w bytes new disk
    ])
  ]

  -- what a decoded message means: the end of the log, an entry, or an error
  unfoldable pub entry_read :
      WalFile → Result (Unit {0}) EngineMessage → WalFile × Option (Result WalError EngineMessage)
  entry_read w (failure e) = (w, some (failure (invalid_read w.cursor)))
  entry_read w (success msg) =
      if is_null_message msg
      then (w, none)
      else (record w { cursor = w.cursor + codec.serialized_size msg }, some (success msg))

  -- WalFile::advance_entry, which WalFile::next calls
  unfoldable pub advance_entry :
      WalFile → Cmd Disk (WalFile × Option (Result WalError EngineMessage))
  unfolding contents entry_read
  advance_entry w disk =
      if w.cursor == w.capacity then ok (w, none) disk else (elim (contents w.file disk) [
        | none ↦ panic
        | some bytes ↦ ok (entry_read w (codec.deserialize (drop w.cursor bytes))) disk
      ])

  -- WalFile::advance_to_end: `last` calls `next` until it yields nothing
  unfoldable pub advance_to_end : ℕ → WalFile → Cmd Disk WalFile
  unfolding advance_entry
  advance_to_end zero w = λ _. out_of_fuel
  advance_to_end (suc k) w = do
    r ← advance_entry w
    elim r.1 [ none ↦ pure r.0 | some _ ↦ advance_to_end k r.0 ]

  -- the loop of Wal::next_file
  unfoldable pub next_file : ℕ → ℕ → ℕ → Cmd Disk (Result WalError (WalFile × ℕ))
  unfolding contents create
  next_file zero file_size index = λ _. out_of_fuel
  next_file (suc k) file_size index = λ disk. elim (contents index disk) [
    | some bytes ↦ next_file k file_size (index + 1) disk
    | none ↦
        (do
          r ← create index file_size
          elim r [ failure e ↦ pure (failure e) | success w ↦ pure (success (w, index + 1)) ])
          disk
  ]

  -- Wal::rotate; on an error the log stays as it is
  unfoldable pub rotate : Wal → Cmd Disk (Wal × Result WalError (Unit {0}))
  unfolding next_file
  rotate wal = do
    disk ← get_state
    r ← next_file (turns disk) wal.file_size wal.index
    elim r [
      | failure e ↦ pure (wal, failure e)
      | success f ↦ pure (record wal { wal = f.0; index = f.1 }, success tt)
    ]

  -- the match on the second result in Wal::write_entry
  unfoldable pub last_result : WriteResult → Result WalError (Unit {0})
  last_result written = success tt
  last_result (write_error e) = failure e
  last_result log_full = failure files_too_small

  -- Wal::write_entry after the first attempt
  unfoldable pub retry :
      Wal → EngineMessage → WriteResult → Cmd Disk (Wal × Result WalError (Unit {0}))
  unfolding rotate write_to_file last_result
  retry wal entry written = pure (wal, success tt)
  retry wal entry (write_error e) = pure (wal, failure e)
  retry wal entry log_full = do
    r ← rotate wal
    elim r.1 [
      | failure e ↦ pure (r.0, failure e)
      | success _ ↦ (do
        w ← write_to_file r.0.wal entry
        pure (record r.0 { wal = w.0 }, last_result w.1))
    ]

  unfoldable pub write_entry : Wal → EngineMessage → Cmd Disk (Wal × Result WalError (Unit {0}))
  unfolding write_to_file retry
  write_entry wal entry = do
    r ← write_to_file wal.wal entry
    retry (record wal { wal = r.0 }) entry r.1

  -- the most recent file, read to its end, unless it does not open; its index stays the log's
  unfoldable pub resume : ℕ → Option ℕ → Cmd Disk (Option (WalFile × ℕ))
  unfolding open_file advance_to_end
  resume k none = pure none
  resume k (some i) = do
    r ← open_file i
    elim r [
      | failure e ↦ pure none
      | success w ↦ (do end ← advance_to_end k w; pure (some (end, i)))
    ]

  -- Wal::new; `k` bounds the entries of the most recent file
  unfoldable pub new : ℕ → Bool → ℕ → Cmd Disk (Result WalError Wal)
  unfolding get_all_files resume next_file
  new k is_dir file_size =
      if is_dir
      then (do
        disk ← get_state
        found ← resume k (last_file (get_all_files disk))
        elim found [
          | some f ↦ pure (success (record { index = f.1; file_size = file_size; wal = f.0 }))
          | none ↦ (do
            r ← next_file (turns disk) file_size 0
            elim r [
              | failure e ↦ pure (failure e)
              | success f ↦
                  pure (success (record { index = f.1; file_size = file_size; wal = f.0 }))
            ])
        ])
      else pure (failure no_directory)
